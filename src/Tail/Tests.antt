-- ===== src/Tail/Tests.antt =====
-- Runs of tail on small files, and its theorem at one of them.
use linux_programming_interf.Common.{
  ℕ, ◌≡◌, ◌≢◌, refl, false, some, List, [], ◌∷◌, ◌++◌, ◌==◌, arith,
}
use linux_programming_interf.Tail.{tail}
use linux_programming_interf.Tail.Scanned.{AreLast}
use linux_programming_interf.Tail.Lines.{tail-AreLast}

-- "a\nbc\n", in blocks of two bytes.
abbrev file : List ℕ
file = b'a' ∷ b'\n' ∷ b'b' ∷ b'c' ∷ b'\n' ∷ []

last_line : tail 1 file 2 ≡ some (b'b' ∷ b'c' ∷ b'\n' ∷ b'\n' ∷ [])
unfolding tail
last_line = refl

no_lines : tail 0 file 2 ≡ some (file ++ b'\n' ∷ [])
unfolding tail
no_lines = refl

not_null : (c : ℕ) → (c == 0) ≡ false → c ≢ 0
not_null c h = (λ e. ground (arith, h, e))

tail-AreLast_example :
    (out : List ℕ) × (tail 1 file 2 ≡ some (out ++ b'\n' ∷ [])) × AreLast 1 file out
tail-AreLast_example = tail-AreLast 1 file 2 (omega arith) (omega arith) (omega arith) (
  not_null b'a' refl,
  (not_null b'\n' refl, (not_null b'b' refl, (not_null b'c' refl, (not_null b'\n' refl, tt)))),
)
