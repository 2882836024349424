-- ===== src/Sockets/Inet/Opened.antt =====
-- Which descriptors the functions leave open.
use linux_programming_interf.Common.{
  ℕ, ◌≡◌, refl, sym, ap, ◌∙◌, Bool, true, false, ◌||◌, Option, none, some, List, [], ◌∷◌, ◌==◌, ◌⊎◌,
  inl, inr, Bool-cases, Option-cases, arith,
}
use linux_programming_interf.Sockets.Inet.{
  Net, Bound, bound, unbound, refused, connect_loop, try_bind, try_socket, bind_loop, listen_on,
  inet_passive_socket,
}

module _ {A K : Type 0} (net : Net A K) where
  -- The same descriptors are open.
  abbrev pub Same : K → K → Type 0
  Same k k' = (d : ℕ) → net.is_open k' d ≡ net.is_open k d

  -- One more is, which was not.
  abbrev pub Opens : K → ℕ → K → Type 0
  Opens k fd k' =
      (net.is_open k fd ≡ false) × ((d : ℕ) → net.is_open k' d ≡ ((d == fd) || net.is_open k d))

  socket-Opens :
      (k : K) (a : A) (fd : ℕ) → (net.socket k a).0 ≡ some fd → Opens k fd (net.socket k a).1
  socket-Opens k a fd h = (net.socket_is_new k a fd h, λ d. net.socket_opens k a fd d h)

  Opens-Same : (k k' k'' : K) (fd : ℕ) → Opens k fd k' → Same k' k'' → Opens k fd k''
  Opens-Same k k' k'' fd (new, h) same = (new, λ d. same d ∙ h d)

  Same-trans : (k k' k'' : K) → Same k k' → Same k' k'' → Same k k''
  Same-trans k k' k'' h same = (λ d. same d ∙ h d)

  Same-Opens : (k k' k'' : K) (fd : ℕ) → Same k k' → Opens k' fd k'' → Opens k fd k''
  Same-Opens k k' k'' fd same (new, h) =
      (sym (same fd) ∙ new, λ d. h d ∙ ap (λ b. (d == fd) || b) (same d))

  -- A new descriptor that is closed again.
  close-Same : (k k' : K) (fd : ℕ) → Opens k fd k' → Same k (net.close k' fd)
  close-Same k k' fd (new, h) = (λ d. closed d)
    where
      closed : (d : ℕ) → net.is_open (net.close k' fd) d ≡ net.is_open k d
      closed d = elim (Bool-cases (d == fd)) [
        | inl same ↦
            let at : d ≡ fd = ground (arith, same) in
            net.close_closes k' fd d ∙ (rw same refl ∙ sym (ap (net.is_open k) at ∙ new))
        | inr differs ↦ net.close_closes k' fd d ∙ (rw differs (h d ∙ rw differs refl))
      ]

  abbrev pub Connected : K → Option ℕ × K → Type 0
  Connected k (none, k') = Same k k'
  Connected k (some sfd, k') = Opens k sfd k'

  Connected-Same : (k k' : K) (r : Option ℕ × K) → Same k k' → Connected k' r → Connected k r
  Connected-Same k k' (none, k'') same h = Same-trans k k' k'' same h
  Connected-Same k k' (some sfd, k'') same h = Same-Opens k k' k'' sfd same h

  -- inetConnect: on success the socket returned is newly open, and all other descriptors are as they
  -- were; on failure all are.
  pub connect_loop-Connected : (rps : List A) (k : K) → Connected k (connect_loop net rps k)
  unfolding connect_loop
  connect_loop-Connected [] k = (λ d. refl)
  connect_loop-Connected (rp ∷ rps) k =
      let k₁ = (net.socket k rp).1 in
      elim (Option-cases (net.socket k rp).0) [
        | inl missing ↦
            rw (missing, connect_loop)
              (Connected-Same k k₁ _ (λ d. net.socket_fails k rp d missing)
                (connect_loop-Connected rps k₁))
        | inr (sfd, made) ↦
            let k₂ = (net.connect k₁ sfd rp).1 in
            let opened =
              Opens-Same k k₁ k₂ sfd (socket-Opens k rp sfd made)
                (λ d. net.connect_keeps k₁ sfd rp d) in
            elim (Bool-cases (net.connect k₁ sfd rp).0) [
              | inl connected ↦ rw (made, connected, connect_loop) opened
              | inr failed ↦
                  rw (made, failed, connect_loop)
                    (Connected-Same k (net.close k₂ sfd) _ (close-Same k k₂ sfd opened)
                      (connect_loop-Connected rps (net.close k₂ sfd)))
            ]
      ]

  abbrev pub BoundFrom : K → Bound A K → Type 0
  BoundFrom k (bound sfd rp k') = Opens k sfd k'
  BoundFrom k (unbound k') = Same k k'
  BoundFrom k (refused k') = Same k k'

  BoundFrom-Same : (k k' : K) (r : Bound A K) → Same k k' → BoundFrom k' r → BoundFrom k r
  BoundFrom-Same k k' (bound sfd rp k'') same h = Same-Opens k k' k'' sfd same h
  BoundFrom-Same k k' (unbound k'') same h = Same-trans k k' k'' same h
  BoundFrom-Same k k' (refused k'') same h = Same-trans k k' k'' same h

  try_bind-BoundFrom :
      (k k₁ : K) (rp : A) (sfd : ℕ) (next : K → Bound A K)
      → Opens k sfd k₁
      → ((k' : K) → BoundFrom k' (next k'))
      → BoundFrom k (try_bind net rp sfd k₁ next)
  try_bind-BoundFrom k k₁ rp sfd next opened again =
      let k₂ = (net.bind k₁ sfd rp).1 in
      let opened' = Opens-Same k k₁ k₂ sfd opened (λ d. net.bind_keeps k₁ sfd rp d) in
      elim (Bool-cases (net.bind k₁ sfd rp).0) [
        | inl is_bound ↦ rw is_bound opened'
        | inr failed ↦ rw failed (
            BoundFrom-Same k (net.close k₂ sfd) _ (close-Same k k₂ sfd opened')
              (again (net.close k₂ sfd)))
      ]

  try_socket-BoundFrom :
      (do_listen : Bool) (k k₁ : K) (rp : A) (sfd : ℕ) (next : K → Bound A K)
      → Opens k sfd k₁
      → ((k' : K) → BoundFrom k' (next k'))
      → BoundFrom k (try_socket net do_listen rp sfd k₁ next)
  try_socket-BoundFrom false k k₁ rp sfd next opened again =
      try_bind-BoundFrom k k₁ rp sfd next opened again
  try_socket-BoundFrom true k k₁ rp sfd next opened again =
      let k₂ = (net.setsockopt k₁ sfd).1 in
      let opened' = Opens-Same k k₁ k₂ sfd opened (λ d. net.setsockopt_keeps k₁ sfd d) in
      elim (Bool-cases (net.setsockopt k₁ sfd).0) [
        | inl is_set ↦ rw is_set (try_bind-BoundFrom k k₂ rp sfd next opened' again)
        | inr failed ↦ rw failed (close-Same k k₂ sfd opened')
      ]

  bind_loop-BoundFrom :
      (do_listen : Bool) (rps : List A) (k : K) → BoundFrom k (bind_loop net do_listen rps k)
  unfolding bind_loop
  bind_loop-BoundFrom do_listen [] k = (λ d. refl)
  bind_loop-BoundFrom do_listen (rp ∷ rps) k =
      let k₁ = (net.socket k rp).1 in
      elim (Option-cases (net.socket k rp).0) [
        | inl missing ↦
            rw (missing, bind_loop)
              (BoundFrom-Same k k₁ _ (λ d. net.socket_fails k rp d missing)
                (bind_loop-BoundFrom do_listen rps k₁))
        | inr (sfd, made) ↦
            rw (made, bind_loop)
              (try_socket-BoundFrom do_listen k k₁ rp sfd (λ k'. bind_loop net do_listen rps k')
                (socket-Opens k rp sfd made) (λ k'. bind_loop-BoundFrom do_listen rps k'))
      ]

  -- The state `k'` is what a call of listen() on `sfd` left, with its answer.
  abbrev pub Listened : K → ℕ → ℕ → Bool → K → Type 0
  Listened k sfd backlog answer k' =
      (k₀ : K) × Opens k sfd k₀ × (net.listen k₀ sfd backlog ≡ (answer, k'))

  -- What a call of inetPassiveSocket() leaves open.
  abbrev pub Passive : Bool → ℕ → K → Option (ℕ × A) × K → Type 0
  Passive do_listen backlog k (some (sfd, rp), k') =
      Opens k sfd k' × (do_listen ≡ true → Listened k sfd backlog true k')
  Passive do_listen backlog k (none, k') =
      Same k k'
      ⊎ ((sfd : ℕ) × (do_listen ≡ true) × Opens k sfd k' × Listened k sfd backlog false k')

  listen_on-Passive :
      (do_listen : Bool) (backlog : ℕ) (k : K) (b : Bound A K)
      → BoundFrom k b
      → Passive do_listen backlog k (listen_on net do_listen backlog b)
  unfolding listen_on
  listen_on-Passive do_listen backlog k (refused k') h = inl h
  listen_on-Passive do_listen backlog k (unbound k') h = inl h
  listen_on-Passive false backlog k (bound sfd rp k') h = (h, λ e. absurd (let no : ⊥ = cc in no))
  listen_on-Passive true backlog k (bound sfd rp k') h =
      let opened =
        Opens-Same k k' (net.listen k' sfd backlog).1 sfd h
          (λ d. net.listen_keeps k' sfd backlog d) in
      elim (Bool-cases (net.listen k' sfd backlog).0) [
        | inl listens ↦
            rw listens (opened, λ e. (k', h, ap (λ a. (a, (net.listen k' sfd backlog).1)) listens))
        | inr failed ↦
            rw failed (
              inr (sfd, refl, opened, (k', h, ap (λ a. (a, (net.listen k' sfd backlog).1)) failed)))
      ]

  -- inetPassiveSocket, which inetListen and inetBind call: on success the socket returned is newly open,
  -- all other descriptors are as they were, and a socket that was to listen does. On failure all are
  -- as they were, or, only where the socket was to listen, one new descriptor is left open, that of a
  -- listen() that has failed.
  pub inet_passive_socket-Passive :
      (result : Option (List A)) (do_listen : Bool) (backlog : ℕ) (k : K)
      → Passive do_listen backlog k (inet_passive_socket net result do_listen backlog k)
  unfolding inet_passive_socket
  inet_passive_socket-Passive none do_listen backlog k = inl (λ d. refl)
  inet_passive_socket-Passive (some rps) do_listen backlog k =
      listen_on-Passive do_listen backlog k (bind_loop net do_listen rps k)
        (bind_loop-BoundFrom do_listen rps k)
