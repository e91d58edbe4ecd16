-- ===== src/StateMachine/PacketId.antt =====
-- `PACKET_ID_RE` of harness/statemachine_v2.py (the same expression as in harness/retry.py).
use Prim.Native.Char.{code}
use codex_loop_orchestra.Prelude.{
  ℕ, ◌≡◌, refl, Bool, true, false, ◌&&◌, ◌||◌, String, List, [], ◌∷◌, all, length, leb, ◌==◌,
}

-- The code points of a text.
abbrev pub codes : String → List ℕ
codes String.[] = []
codes (String.◌∷◌ c s) = code c ∷ codes s

is_alnum : ℕ → Bool
is_alnum c = leb 48 c && leb c 57 || leb 65 c && leb c 90 || leb 97 c && leb c 122

-- `[A-Za-z0-9._-]`
is_id_char : ℕ → Bool
unfolding is_alnum
is_id_char c = is_alnum c || c == 46 || c == 95 || c == 45

id_codes : List ℕ → Bool
unfolding is_id_char
id_codes [] = false
id_codes (c ∷ cs) = is_alnum c && all is_id_char cs && leb (length cs) 95

-- `PACKET_ID_RE.fullmatch(pid)`
unfoldable pub valid_pid : String → Bool
unfolding id_codes
valid_pid pid = id_codes (codes pid)

valid_pid_test : valid_pid "pkt-01.a" ≡ true
unfolding valid_pid
valid_pid_test = refl

valid_pid_slash : valid_pid "../x" ≡ false
unfolding valid_pid
valid_pid_slash = refl
