-- ===== src/Sockets/ReadLineBuf/Lines.antt =====
-- The lines, however their bytes are cut into blocks.
use linux_programming_interf.Common.{ℕ, ◌≡◌, List, [], ◌∷◌, ◌++◌}
use linux_programming_interf.Sockets.Rdwrn.{ReadReturn, received, read_error}
use linux_programming_interf.Sockets.Rdwrn.Readn.{delivered}
use linux_programming_interf.Sockets.ReadLineBuf.{BufResult, counted, failed, waiting}
use linux_programming_interf.Sockets.ReadLineBuf.Blocks.{Inside, Held}

-- A read() fails with the error.
pub data HasError : ℕ → List ReadReturn → Type 0 where
  here : {e : ℕ} {rs : List ReadReturn} → HasError e (read_error e ∷ rs)
  later :
      {e : ℕ} {xs : List ℕ} {rs : List ReadReturn} → HasError e rs → HasError e (received xs ∷ rs)

-- A line that ends with a newline, and one that ends where the file does, with what is left of the
-- bytes `all`.
pub data Line : List ReadReturn → ℕ → List ℕ → List ℕ → List ℕ → BufResult → Type 0 where
  ended :
      {reads : List ReadReturn} {n cnt : ℕ} {buffer line all mem rest : List ℕ}
      {rs : List ReadReturn} (cs : List ℕ)
      → Inside cs
      → cs ++ b'\n' ∷ (rest ++ delivered rs) ≡ all
      → Held n buffer (line ++ (cs ++ b'\n' ∷ [])) cnt mem
      → Line reads n buffer line all (counted cnt mem rest rs)
  cut_short :
      {reads : List ReadReturn} {n cnt : ℕ} {buffer line all mem : List ℕ} {rs : List ReadReturn}
      (cs : List ℕ)
      → Inside cs
      → cs ++ delivered rs ≡ all
      → Held n buffer (line ++ cs) cnt mem
      → Line reads n buffer line all (counted cnt mem [] rs)
  stopped :
      {reads : List ReadReturn} {n : ℕ} {buffer line all : List ℕ} (e : ℕ)
      → HasError e reads
      → Line reads n buffer line all (failed e)
  blocked :
      {reads : List ReadReturn} {n : ℕ} {buffer line all : List ℕ}
      → Inside all
      → Line reads n buffer line all waiting
