-- ===== src/Trigger/Mode.antt =====
-- `sampled_for_verification` and `apply_routing_mode` of harness/trigger_eval_v2.py. The mode is
-- the one that the router answers; the hashes and the text of a queue line are parameters.
pub mod Stands
pub mod Once
use codex_loop_orchestra.Prelude.{
  ℕ, ◌*◌, ◌^◌, Bool, true, false, not, ◌&&◌, ◌||◌, String, List, [], ◌∷◌, ◌++◌, Option, none, some,
  any, ltb, str_eq, if◌then◌else◌,
}

-- `RoutingMode`
pub data RoutingMode : Type 0 where
  cold_start shadow layered : RoutingMode

-- A line of the queue for level 2; the last rules hit and the reason are only shown.
pub record L2Record : Type 0 where
  pub packet_id : String
  pub run_id : String
  pub attempt : ℕ
  pub idem_key : String

-- A line of the shadow log.
pub record ShadowLine : Type 0 where
  pub packet_id : String
  pub raw_action : String
  pub executed_as : String

-- `l2_queue/pending.ndjsonl` and `shadow_log.ndjsonl`.
pub record Queues : Type 0 where
  pub l2_pending : List L2Record
  pub shadow_log : List ShadowLine

-- `action in ("direct_l3", "direct_l4")`
abbrev pub is_direct : String → Bool
is_direct action = str_eq action "direct_l3" || str_eq action "direct_l4"

abbrev pub executed : String → String
executed action = if is_direct action then action else "direct_l3"

-- The call's arguments, with the rate in 1/10000, and whether the queue's file can be read.
pub record Request : Type 0 where
  pub packet_id : String
  pub run_id : String
  pub attempt : ℕ
  pub verify_sample_rate : ℕ
  pub queue_readable : Bool

-- The first 8 bytes of `sha256(packet_id)`; the key of a request; and `key in line`.
module _ (sha_prefix : String → ℕ) (idem_key : String → String → ℕ → String)
    (in_line : String → L2Record → Bool) where
  unfoldable pub sampled_for_verification : String → ℕ → Bool
  sampled_for_verification packet_id rate =
      ltb 0 rate && ltb (sha_prefix packet_id * 10000) (rate * 2 ^ 64)

  abbrev pub key_of : Request → String
  key_of q = idem_key q.packet_id q.run_id q.attempt

  -- `_l2_record_exists`; a file that cannot be read counts as one without the record.
  abbrev pub l2_record_exists : Bool → String → List L2Record → Bool
  l2_record_exists readable key pending = readable && any (in_line key) pending

  unfoldable pub request_l2 : Request → Queues → Queues
  request_l2 q f =
      if l2_record_exists q.queue_readable (key_of q) f.l2_pending then f else record f {
        l2_pending =
            f.l2_pending
            ++ record {
              packet_id = q.packet_id;
              run_id = q.run_id;
              attempt = q.attempt;
              idem_key = key_of q;
            }
              ∷ [];
      }

  -- A slice of the healthy passes is verified.
  unfoldable pub after_sampling : Request → String → String
  after_sampling q action =
      if str_eq action "pass" && sampled_for_verification q.packet_id q.verify_sample_rate
      then "send_l2"
      else action

  unfoldable pub apply_routing_mode : RoutingMode → Request → String → Queues → Queues × String
  apply_routing_mode cold_start q action f = (f, executed action)
  apply_routing_mode shadow q action f = (
    record f {
      shadow_log =
          f.shadow_log
          ++ record { packet_id = q.packet_id; raw_action = action; executed_as = executed action }
            ∷ [];
    },
    executed action,
  )
  apply_routing_mode layered q action f =
      let action' = after_sampling q action in
      (if str_eq action' "send_l2" then request_l2 q f else f, action')
