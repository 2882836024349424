-- ===== src/Sockets/Inet/Tests.antt =====
-- A small set of socket calls, and the theorem on a run of them.
use linux_programming_interf.Common.{
  ℕ, suc, ◌+◌, ◌≤◌, ◌≡◌, refl, sym, ap, ◌∙◌, Bool, true, false, ◌&&◌, ◌||◌, not, Option, none, some,
  List, [], ◌∷◌, ◌==◌, inl, inr, Bool-cases, arith, if◌then◌else◌,
}
use mathlib.Core.Option.{some-injective}
use linux_programming_interf.Sockets.Inet.{Net, inet_passive_socket}
use linux_programming_interf.Sockets.Inet.Opened.{Passive, inet_passive_socket-Passive}

-- The state is the list of the open descriptors; the next one is above all of them.
abbrev is_in : List ℕ → ℕ → Bool
is_in [] d = false
is_in (x ∷ xs) d = (d == x) || is_in xs d

abbrev total : List ℕ → ℕ
total [] = 0
total (x ∷ xs) = x + total xs

abbrev without : List ℕ → ℕ → List ℕ
without [] fd = []
without (x ∷ xs) fd = let rest = without xs fd in if x == fd then rest else x ∷ rest

above_total : (xs : List ℕ) (n : ℕ) → total xs ≤ n → is_in xs (suc n) ≡ false
above_total [] n h = refl
above_total (x ∷ xs) n h = let rest = above_total xs n (omega (arith, h)) in ground (arith, h, rest)

is_in-without : (xs : List ℕ) (fd d : ℕ) → is_in (without xs fd) d ≡ (not (d == fd) && is_in xs d)
is_in-without [] fd d = ground arith
is_in-without (x ∷ xs) fd d =
    let ih = is_in-without xs fd d in
    elim (Bool-cases (x == fd)) [
      | inl same ↦ rw same (ground (arith, ih, same))
      | inr differs ↦ rw differs (ground (arith, ih, differs))
    ]

-- An address is its kind: socket() fails for 0, and bind() and connect() for 1.
abbrev socket_of : List ℕ → ℕ → Option ℕ × List ℕ
socket_of k a = if a == 0 then (none, k) else (some (suc (total k)), suc (total k) ∷ k)

socket_of-none :
    (k : List ℕ) (a d : ℕ) → (socket_of k a).0 ≡ none → is_in (socket_of k a).1 d ≡ is_in k d
socket_of-none k a d h = elim (Bool-cases (a == 0)) [
  | inl fails ↦ rw fails refl
  | inr works ↦
      absurd
        (let e : some (suc (total k)) ≡ none = sym (rw works refl) ∙ h in let no : ⊥ = cc in no)
]

socket_of-fd : (k : List ℕ) (a fd : ℕ) → (socket_of k a).0 ≡ some fd → suc (total k) ≡ fd
socket_of-fd k a fd h = elim (Bool-cases (a == 0)) [
  | inl fails ↦ absurd (let e : none ≡ some fd = sym (rw fails refl) ∙ h in let no : ⊥ = cc in no)
  | inr works ↦ some-injective (suc (total k)) fd (sym (rw works refl) ∙ h)
]

socket_of-is_new : (k : List ℕ) (a fd : ℕ) → (socket_of k a).0 ≡ some fd → is_in k fd ≡ false
socket_of-is_new k a fd h =
    ap (is_in k) (sym (socket_of-fd k a fd h)) ∙ above_total k (total k) (omega arith)

socket_of-opens :
    (k : List ℕ) (a fd d : ℕ)
    → (socket_of k a).0 ≡ some fd
    → is_in (socket_of k a).1 d ≡ ((d == fd) || is_in k d)
socket_of-opens k a fd d h = elim (Bool-cases (a == 0)) [
  | inl fails ↦ absurd (let e : none ≡ some fd = sym (rw fails refl) ∙ h in let no : ⊥ = cc in no)
  | inr works ↦ rw works (ap (λ x. (d == x) || is_in k d) (socket_of-fd k a fd h))
]

abbrev calls : Net ℕ (List ℕ)
calls = record {
  is_open = is_in;
  socket = socket_of;
  connect = λ k fd a. (not (a == 1), k);
  setsockopt = λ k fd. (true, k);
  bind = λ k fd a. (not (a == 1), k);
  listen = λ k fd backlog. (not (backlog == 0), k);
  close = without;
  socket_fails = socket_of-none;
  socket_is_new = socket_of-is_new;
  socket_opens = socket_of-opens;
  connect_keeps = λ k fd a d. refl;
  setsockopt_keeps = λ k fd d. refl;
  bind_keeps = λ k fd a d. refl;
  listen_keeps = λ k fd backlog d. refl;
  close_closes = is_in-without;
}

inet_passive_socket-Passive_example :
    Passive calls true 5
      (0 ∷ 1 ∷ 2 ∷ [])
      (inet_passive_socket calls (some (0 ∷ 1 ∷ 2 ∷ [])) true 5 (0 ∷ 1 ∷ 2 ∷ []))
inet_passive_socket-Passive_example =
    inet_passive_socket-Passive calls (some (0 ∷ 1 ∷ 2 ∷ [])) true 5 (0 ∷ 1 ∷ 2 ∷ [])

third_address :
    inet_passive_socket calls (some (0 ∷ 1 ∷ 2 ∷ [])) true 5 (0 ∷ 1 ∷ 2 ∷ [])
    ≡ (some (4, 2), 4 ∷ 0 ∷ 1 ∷ 2 ∷ [])
unfolding inet_passive_socket
third_address = refl

-- A failed listen() leaves the socket open.
left_open :
    inet_passive_socket calls (some (2 ∷ [])) true 0 (0 ∷ 1 ∷ 2 ∷ []) ≡ (none, 4 ∷ 0 ∷ 1 ∷ 2 ∷ [])
unfolding inet_passive_socket
left_open = refl
