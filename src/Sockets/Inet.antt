-- ===== src/Sockets/Inet.antt =====
-- book-src/sockets/inet_sockets.c: inetConnect(), inetPassiveSocket(), inetListen() and inetBind(). The
-- socket calls are parameters, with what they do to the open descriptors of the process; the answer
-- of getaddrinfo() is given, `none` where it fails. What freeaddrinfo() releases is not looked at.
pub mod Opened
mod Tests
use linux_programming_interf.Common.{
  ℕ, ◌≡◌, Bool, true, false, ◌&&◌, ◌||◌, not, Option, none, some, List, [], ◌∷◌, ◌==◌,
  if◌then◌else◌,
}

-- `A` is a `struct addrinfo`, `K` the state of the kernel. A call that fails gives false or `none`.
pub record Net (A K : Type 0) : Type 0 where
  pub is_open : K → ℕ → Bool
  pub socket : K → A → Option ℕ × K
  pub connect : K → ℕ → A → Bool × K
  pub setsockopt : K → ℕ → Bool × K
  pub bind : K → ℕ → A → Bool × K
  pub listen : K → ℕ → ℕ → Bool × K
  pub close : K → ℕ → K
  pub socket_fails :
      (k : K) (a : A) (d : ℕ) → (socket k a).0 ≡ none → is_open (socket k a).1 d ≡ is_open k d
  pub socket_is_new : (k : K) (a : A) (fd : ℕ) → (socket k a).0 ≡ some fd → is_open k fd ≡ false
  pub socket_opens :
      (k : K) (a : A) (fd d : ℕ)
      → (socket k a).0 ≡ some fd
      → is_open (socket k a).1 d ≡ ((d == fd) || is_open k d)
  pub connect_keeps : (k : K) (fd : ℕ) (a : A) (d : ℕ) → is_open (connect k fd a).1 d ≡ is_open k d
  pub setsockopt_keeps : (k : K) (fd d : ℕ) → is_open (setsockopt k fd).1 d ≡ is_open k d
  pub bind_keeps : (k : K) (fd : ℕ) (a : A) (d : ℕ) → is_open (bind k fd a).1 d ≡ is_open k d
  pub listen_keeps : (k : K) (fd backlog d : ℕ) → is_open (listen k fd backlog).1 d ≡ is_open k d
  pub close_closes : (k : K) (fd d : ℕ) → is_open (close k fd) d ≡ (not (d == fd) && is_open k d)

-- How the loop of inetPassiveSocket() ends: at a bound socket and its address; past the last address;
-- or by the return after a failed setsockopt().
pub data Bound (A K : Type 0) : Type 0 where
  bound : ℕ → A → K → Bound A K
  unbound : K → Bound A K
  refused : K → Bound A K

module _ {A K : Type 0} (net : Net A K) where
  -- The loop of inetConnect(); the answer `none` is -1.
  unfoldable pub connect_loop : List A → K → Option ℕ × K
  connect_loop [] k = (none, k)
  connect_loop (rp ∷ rps) k =
      let k₁ = (net.socket k rp).1 in
      let skipped = connect_loop rps k₁ in
      elim (net.socket k rp).0 [
        | none ↦ skipped
        | some sfd ↦
            let (connected, k₂) = net.connect k₁ sfd rp in
            let next = connect_loop rps (net.close k₂ sfd) in
            if connected then (some sfd, k₂) else next
      ]

  unfoldable pub inet_connect : Option (List A) → K → Option ℕ × K
  unfolding connect_loop
  inet_connect none k = (none, k)
  inet_connect (some result) k = connect_loop result k

  -- The socket of one address, from bind() on; `next` is the next round.
  abbrev pub try_bind : A → ℕ → K → (K → Bound A K) → Bound A K
  try_bind rp sfd k next =
      let (is_bound, k') = net.bind k sfd rp in
      let rest = next (net.close k' sfd) in if is_bound then bound sfd rp k' else rest

  abbrev pub try_socket : Bool → A → ℕ → K → (K → Bound A K) → Bound A K
  try_socket do_listen rp sfd k next =
      let (is_set, k') = net.setsockopt k sfd in
      if do_listen
      then (if is_set then try_bind rp sfd k' next else refused (net.close k' sfd))
      else try_bind rp sfd k next

  -- The loop of inetPassiveSocket()
  unfoldable pub bind_loop : Bool → List A → K → Bound A K
  bind_loop do_listen [] k = unbound k
  bind_loop do_listen (rp ∷ rps) k =
      let next = (λ (k' : K). bind_loop do_listen rps k') in
      elim (net.socket k rp).0 [
        | none ↦ next (net.socket k rp).1
        | some sfd ↦ try_socket do_listen rp sfd (net.socket k rp).1 next
      ]

  -- Behind the loop: the socket with the address whose length is stored.
  unfoldable pub listen_on : Bool → ℕ → Bound A K → Option (ℕ × A) × K
  listen_on do_listen backlog (refused k) = (none, k)
  listen_on do_listen backlog (unbound k) = (none, k)
  listen_on do_listen backlog (bound sfd rp k) =
      let (listens, k') = net.listen k sfd backlog in
      if do_listen
      then (if listens then (some (sfd, rp), k') else (none, k'))
      else (some (sfd, rp), k)

  unfoldable pub inet_passive_socket : Option (List A) → Bool → ℕ → K → Option (ℕ × A) × K
  unfolding bind_loop listen_on
  inet_passive_socket none do_listen backlog k = (none, k)
  inet_passive_socket (some result) do_listen backlog k =
      listen_on do_listen backlog (bind_loop do_listen result k)

  unfoldable pub inet_listen : Option (List A) → ℕ → K → Option (ℕ × A) × K
  unfolding inet_passive_socket
  inet_listen result backlog k = inet_passive_socket result true backlog k

  unfoldable pub inet_bind : Option (List A) → K → Option (ℕ × A) × K
  unfolding inet_passive_socket
  inet_bind result k = inet_passive_socket result false 0 k
