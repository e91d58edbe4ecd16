-- ===== src/Plan/Kahn.antt =====
-- Kahn's algorithm as harness/dag_assert.py runs it. A Python list that is used as a stack has its
-- end at the head here. An edge has two ends; the in-degrees are a function, since every key that
-- the code reads is a node.
use codex_loop_orchestra.Prelude.{
  ℕ, zero, suc, Bool, true, false, String, List, [], ◌∷◌, Option, none, some, ℤ, pos, negsuc,
  add_nat, sub_nat, str_eq, length, if◌then◌else◌,
}

abbrev pub Edges : Type 0
Edges = List (String × String)

abbrev pub Degrees : Type 0
Degrees = String → ℤ

abbrev pub is_zero : ℤ → Bool
is_zero (pos zero) = true
is_zero (pos (suc n)) = false
is_zero (negsuc n) = false

-- `indeg[b] = z`
abbrev pub put : String → ℤ → Degrees → Degrees
put b z d v = if str_eq b v then z else d v

-- `for a, b in edges: indeg[b] += 1`
unfoldable pub count_in : Edges → Degrees → Degrees
count_in [] d = d
count_in ((a, b) ∷ es) d = count_in es (put b (add_nat (d b) 1) d)

-- `[n for n in nodes if indeg[n] == 0]`
unfoldable pub sources : Degrees → List String → List String → List String
sources d [] queue = queue
sources d (n ∷ ns) queue = sources d ns (if is_zero (d n) then n ∷ queue else queue)

-- `if indeg[b] == 0: queue.append(b)`
abbrev pub push_ready : String → ℤ → List String → List String
push_ready b z queue = if is_zero z then b ∷ queue else queue

-- The loop over the edges after `n` left the queue.
unfoldable pub relax : String → Edges → Degrees → List String → Degrees × List String
relax n [] d queue = (d, queue)
relax n ((a, b) ∷ es) d queue =
    let z = sub_nat (d b) 1 in
    relax n es (if str_eq a n then put b z d else d)
      (if str_eq a n then push_ready b z queue else queue)

-- The `while` loop: how many nodes were sorted. `none` means that the fuel ran out.
unfoldable pub kahn : ℕ → Edges → Degrees → List String → ℕ → Option ℕ
kahn zero es d queue seen = none
kahn (suc fuel) es d [] seen = some seen
kahn (suc fuel) es d (n ∷ queue) seen =
    let after = relax n es d queue in kahn fuel es after.0 after.1 (suc seen)

-- A node is taken from the queue once, so a round for each and one to stop are enough.
unfoldable pub sorted_nodes : Edges → List String → Option ℕ
sorted_nodes es nodes =
    let d = count_in es (λ _. pos 0) in kahn (suc (length nodes)) es d (sources d nodes []) 0
