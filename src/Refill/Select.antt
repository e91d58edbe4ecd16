-- ===== src/Refill/Select.antt =====
-- `select_tasks` of harness/refill_consumer_v2.py: the packets that are dispatched next, one of each
-- parent in turn, within the slots of the pools and of the parents. The ledger is given in the order
-- of its ids, and whether a packet's file is in order is a parameter. The name of a task is left out.
use codex_loop_orchestra.Prelude.{
  ℕ, zero, suc, ◌-◌, Bool, true, false, not, ◌&&◌, String, List, [], ◌∷◌, ◌++◌, Option, none, some,
  Dict, lookup, insert, any, is_some, get_or_default, ltb, ◌==◌, str_eq, if◌then◌else◌,
}
use Prim.Native.String.{compare, ◌++◌ as text_append}
use Prim.Native.Nat.{lt, eq, gt}
use codex_loop_orchestra.Refill.Split.{Pools, no_slots, sum_pools}
use codex_loop_orchestra.Refill.Recompute.{Registered}
use codex_loop_orchestra.Refill.State.{ParentState, RefillState}
use codex_loop_orchestra.Refill.Queue.{
  Pool, pool_v4, pool_k3, in_pool, with_pool, Work, is_k3_role, claims, pool_for_packet,
}

pub record LedgerEntry : Type 0 where
  pub packet_id : String
  pub release_review : Bool
  pub work : Work

-- A row of a bucket: a packet that may be dispatched, its pool and its parent.
pub record Candidate : Type 0 where
  pub packet_id : String
  pub work : Work
  pub pool : Pool
  pub parent_id : Option String

pub record Task : Type 0 where
  pub packet_id : String
  pub role : String
  pub parent_session_id : Option String

abbrev pub Buckets : Type 0
Buckets = Dict (List Candidate)

pub record Selection : Type 0 where
  pub remaining : Pools
  pub parent_remaining : Dict Pools
  pub tasks : List Task

-- An exception of the consumer is `refused`.
pub data Selecting {ℓ} (A : Type ℓ) : Type ℓ where
  ended : A → Selecting A
  refused : Selecting A
  ran_out : Selecting A

abbrev pub spawnable_of : Dict ParentState → Dict Pools
spawnable_of [] = []
spawnable_of ((parent_id, p) ∷ rest) = (parent_id, p.spawnable) ∷ spawnable_of rest

-- `buckets.setdefault(key, []).append(...)`, in the order of the keys
unfoldable pub add_row : String → Candidate → Buckets → Buckets
add_row key c [] = (key, c ∷ []) ∷ []
add_row key c ((name, rows) ∷ rest) =
    let later = add_row key c rest in
    elim (compare key name) [
      | lt ↦ (key, c ∷ []) ∷ (name, rows) ∷ rest
      | eq ↦ (name, rows ++ c ∷ []) ∷ rest
      | gt ↦ (name, rows) ∷ later
    ]

-- `role_for_entry` for a packet that is DISPATCHABLE
abbrev pub is_loop_role : String → Bool
is_loop_role role = any (str_eq role) ("worker" ∷ "verifier" ∷ "reviewer" ∷ "plan_expander" ∷ [])

abbrev pub same_pool : Pool → Pool → Bool
same_pool (pool_v4) (pool_v4) = true
same_pool (pool_k3) (pool_k3) = true
same_pool _ _ = false

abbrev pub role_pool : String → Pool
role_pool role = if is_k3_role role then pool_k3 else pool_v4

module _ (registry : Dict Registered) (spawnable : Dict Pools) where
  abbrev pub bucket_key : Option String → String
  bucket_key none = "legacy"
  bucket_key (some parent_id) = text_append "parent:" parent_id

  abbrev pub is_admitted : Option String → Work → Bool
  is_admitted none item = true
  is_admitted (some parent_id) item =
      claims (lookup parent_id registry) item && is_some (lookup parent_id spawnable)

  unfoldable pub bucket_entry : LedgerEntry → Buckets → Buckets
  bucket_entry entry buckets =
      if str_eq entry.work.state "DISPATCHABLE"
        && not entry.release_review
        && is_admitted entry.work.parent_session_id entry.work
      then add_row (bucket_key entry.work.parent_session_id)
          (record {
            packet_id = entry.packet_id;
            work = entry.work;
            pool = pool_for_packet entry.work;
            parent_id = entry.work.parent_session_id;
          })
          buckets
      else buckets

  unfoldable pub bucket_all : List LedgerEntry → Buckets → Buckets
  bucket_all [] buckets = buckets
  bucket_all (entry ∷ entries) buckets = bucket_all entries (bucket_entry entry buckets)

abbrev pub of_parent : String → Selection → Pools
of_parent parent_id s = get_or_default (lookup parent_id s.parent_remaining) no_slots

abbrev pub parent_has_slot : Option String → Pool → Selection → Bool
parent_has_slot none pool s = true
parent_has_slot (some parent_id) pool s = ltb 0 (in_pool pool (of_parent parent_id s))

abbrev pub has_slot : Candidate → Selection → Bool
has_slot c s = ltb 0 (in_pool c.pool s.remaining) && parent_has_slot c.parent_id c.pool s

-- The first row that has a slot, and the rows without it.
unfoldable pub choose : Selection → List Candidate → Option (Candidate × List Candidate)
choose s [] = none
choose s (c ∷ rows) =
    let later = choose s rows in
    if has_slot c s
    then some (c, rows)
    else elim later [ none ↦ none | some found ↦ some (found.0, c ∷ found.1) ]

abbrev pub one_less : Pool → Pools → Pools
one_less pool p = with_pool pool (in_pool pool p - 1) p

abbrev pub parent_less : Option String → Pool → Selection → Dict Pools
parent_less none pool s = s.parent_remaining
parent_less (some parent_id) pool s =
    insert parent_id (one_less pool (of_parent parent_id s)) s.parent_remaining

pub record Round : Type 0 where
  pub buckets : Buckets
  pub selection : Selection
  pub progressed : Bool

abbrev pub with_bucket : String → List Candidate → Selecting Round → Selecting Round
with_bucket key rows (ended r) = ended (record r { buckets = (key, rows) ∷ r.buckets })
with_bucket key rows (refused) = refused
with_bucket key rows (ran_out) = ran_out

module _ (is_valid : String → Bool) where
  unfoldable pub take_task : Candidate → Selection → Selecting Selection
  take_task c s =
      if is_valid c.packet_id
        && is_loop_role c.work.role
        && same_pool (role_pool c.work.role) c.pool
      then ended (record {
        remaining = one_less c.pool s.remaining;
        parent_remaining = parent_less c.parent_id c.pool s;
        tasks =
            s.tasks
            ++ record {
              packet_id = c.packet_id;
              role = c.work.role;
              parent_session_id = c.parent_id;
            }
              ∷ [];
      })
      else refused

  -- The `for` loop over the buckets.
  unfoldable pub round : Buckets → Bool → Selection → Selecting Round
  round [] progressed s = ended (record { buckets = []; selection = s; progressed = progressed })
  round ((key, rows) ∷ rest) progressed s = elim (choose s rows) [
    | none ↦ with_bucket key rows (round rest progressed s)
    | some (c, left) ↦ elim (take_task c s) [
      | ended next ↦ with_bucket key left (round rest true next)
      | refused ↦ refused
      | ran_out ↦ ran_out
    ]
  ]

  -- The `while` loop: a round that goes on takes a slot.
  unfoldable pub rounds : ℕ → Buckets → Selection → Selecting Selection
  rounds zero buckets s = if sum_pools s.remaining == 0 then ended s else ran_out
  rounds (suc fuel) buckets s =
      if sum_pools s.remaining == 0 then ended s else elim (round buckets false s) [
        | refused ↦ refused
        | ran_out ↦ ran_out
        | ended r ↦
            let more = rounds fuel r.buckets r.selection in
            if r.progressed then more else ended r.selection
      ]

  -- The state says what the pools and the parents may fill.
  unfoldable pub select_tasks :
      Dict Registered → RefillState → List LedgerEntry → Selecting Selection
  select_tasks registry state ledger =
      let spawnable = spawnable_of state.parents in
      rounds (sum_pools state.deficit) (bucket_all registry spawnable ledger [])
        (record { remaining = state.deficit; parent_remaining = spawnable; tasks = [] })
