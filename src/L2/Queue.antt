-- ===== src/L2/Queue.antt =====
-- The queue of harness/l2_consumer.py and the operations on it. A file of a directory is an entry
-- of an association list under its key, whose path is taken to be its own; `delete` is `unlink`.
use codex_loop_orchestra.Prelude.{
  ℕ, ◌+◌, ◌≡◌, Bool, String, List, [], ◌∷◌, ◌++◌, Option, none, some, Dict, lookup, insert, is_some,
  get_or_default, str_eq, eq_iff, if◌then◌else◌, arith,
}

-- A parsed line of `pending.ndjsonl`.
pub record L2Record : Type 0 where
  pub idem_key : String
  pub packet_id : String
  pub run_id : String
  pub attempt : ℕ
  pub reason : String
  pub created_ts : ℕ

pub record Claim : Type 0 where
  pub packet_id : String
  pub heartbeat_ts : ℕ
  pub reclaims : ℕ

-- A claim whose body was never written has only the time of its creation.
pub data ClaimFile : Type 0 where
  written : Claim → ClaimFile
  corrupt : ℕ → ClaimFile

pub data Completion : Type 0 where
  escalated_l3 stale_escalated : Completion
  published : Bool → Option String → Completion

pub data L2Event : Type 0 where
  l2_requested verdict_escalate_l3 l2_claim_reaped l2_consumer_stale : String → L2Event
  verdict_event : String → String → L2Event
  exec_failed : String → L2Event

pub record Queue : Type 0 where
  pub pending : List L2Record
  pub claims : Dict ClaimFile
  pub completions : Dict Completion
  -- The numbered files under `reaped/`, and the one that a corrupt claim leaves there.
  pub reaped : Dict ℕ
  pub reaped_corrupt : Dict ℕ
  pub events : List L2Event
  pub sol_wakes : List String
  pub k3_demand : List String
  -- The calls of the dispatcher, the last one first.
  pub dispatches : List String

pub record Settings : Type 0 where
  pub claim_stale_after_s : ℕ
  pub claim_max_reclaims : ℕ
  pub l2_max_age_s : ℕ

module _ {V : Type 0} where
  unfoldable pub delete : String → Dict V → Dict V
  delete key [] = []
  delete key ((name, value) ∷ rest) =
      let later = delete key rest in if str_eq name key then later else (name, value) ∷ later

  pub lookup-delete :
      (gone key : String) (d : Dict V)
      → lookup key (delete gone d) ≡ (if str_eq gone key then none else lookup key d)
  unfolding lookup delete
  lookup-delete gone key [] = ground arith
  lookup-delete gone key ((name, value) ∷ rest) =
      ground
        (arith, lookup-delete gone key rest, eq_iff name key, eq_iff name gone, eq_iff gone key)

abbrev pub emit : L2Event → Queue → Queue
emit e q = record q { events = q.events ++ e ∷ [] }

-- `_completion_path(key).exists()`, `_claim_path(key).exists()`
abbrev pub is_complete : Queue → String → Bool
is_complete q key = is_some (lookup key q.completions)

abbrev pub is_claimed : Queue → String → Bool
is_claimed q key = is_some (lookup key q.claims)

-- `_reclaim_count`
abbrev pub reclaim_count : Queue → String → ℕ
reclaim_count q key =
    get_or_default (lookup key q.reaped) 0 + get_or_default (lookup key q.reaped_corrupt) 0

abbrev pub new_claim : ℕ → L2Record → ℕ → Claim
new_claim now rec reclaims = record {
  packet_id = rec.packet_id;
  heartbeat_ts = now;
  reclaims = reclaims;
}

-- `try_claim`: `none` if the file exists.
unfoldable pub try_claim : ℕ → L2Record → Queue → Option Queue
try_claim now rec q = elim (lookup rec.idem_key q.claims) [
  | some _ ↦ none
  | none ↦ some (record q {
    claims =
        insert rec.idem_key (written (new_claim now rec (reclaim_count q rec.idem_key))) q.claims;
  })
]

-- What a drainer that stops between the creation of the file and its body leaves.
unfoldable pub crash_in_claim : ℕ → L2Record → Queue → Queue
crash_in_claim now rec q = elim (lookup rec.idem_key q.claims) [
  | some _ ↦ q
  | none ↦ record q { claims = insert rec.idem_key (corrupt now) q.claims }
]

-- The event, the demand and the call of the dispatcher for a record that was claimed.
unfoldable pub announce : L2Record → Queue → Queue
announce rec q = record q {
  events = q.events ++ l2_requested rec.packet_id ∷ [];
  k3_demand = q.k3_demand ++ rec.idem_key ∷ [];
  dispatches = rec.idem_key ∷ q.dispatches;
}

pub data Taken : Type 0 where
  already_complete already_claimed claimed : Taken

-- The body of the loop of `drain`.
unfoldable pub take_record : ℕ → L2Record → Queue → Queue × Taken
take_record now rec q =
    if is_complete q rec.idem_key then (q, already_complete) else elim (try_claim now rec q) [
      | none ↦ (q, already_claimed)
      | some q' ↦ (announce rec q', claimed)
    ]

-- `heartbeat`
unfoldable pub heartbeat : ℕ → String → Queue → Queue
heartbeat now key q = elim (lookup key q.claims) [
  | some (written claim) ↦ record q {
    claims = insert key (written (record claim { heartbeat_ts = now })) q.claims;
  }
  | some (corrupt _) ↦ q
  | none ↦ q
]
