-- ===== src/UsernsChild/Written.antt =====
-- What the child's map files hold when update_child_maps returns.
use linux_programming_interf.Common.{
  ℕ, ◌≡◌, ◌≢◌, refl, sym, ap, ◌∙◌, Bool, true, false, Option, none, some, [], ◌∷◌, ◌++◌, map, ◌==◌,
  ◌⊎◌, inl, inr, Bool-cases, arith, if◌then◌else◌,
}
use linux_programming_interf.Common.Text.{CString, split_on, Lacks, Lacks-append}
use linux_programming_interf.UsernsChild.{CmdOptions}
use linux_programming_interf.UsernsChild.Maps.{
  MapFile, uid_map_file, gid_map_file, setgroups_file, Answer, enoent, open_error, write_error,
  partly_written, all_written, Writes, ParentKernel, to_newline, map_result, setgroups_result,
  update_map, proc_setgroups_write, deny, root_mapping, chosen_map, if_chosen, and_then,
  deny_setgroups_if, update_child_maps,
}

abbrev newline : ℕ
newline = b'\n'

abbrev comma : ℕ
comma = b','

-- The records between the newlines are those between the commas.
to_newline_records :
    (m : CString) → Lacks newline m → split_on newline (map to_newline m) ≡ split_on comma m
unfolding split_on
to_newline_records [] h = refl
to_newline_records (c ∷ m) (other, h) = elim (Bool-cases (c == comma)) [
  | inl at_comma ↦ rw (at_comma, to_newline_records m h) refl
  | inr differ ↦
      let plain : (c == newline) ≡ false = ground (arith, other) in
      rw (differ, plain, to_newline_records m h) refl
]

abbrev is_file : MapFile → MapFile → Bool
is_file uid_map_file uid_map_file = true
is_file gid_map_file gid_map_file = true
is_file setgroups_file setgroups_file = true
is_file _ _ = false

-- The last text for a file.
abbrev pub written : MapFile → Writes → Option CString
written f [] = none
written f ((g, text) ∷ log) = let rest = written f log in if is_file f g then some text else rest

-- A file holds the records of a map, where there is one.
abbrev pub FileHolds : Option CString → Option CString → Type 0
FileHolds none file = file ≡ none
FileHolds (some m) none = ⊥
FileHolds (some m) (some text) = split_on newline text ≡ split_on comma m

abbrev pub EndsDenied : Writes → Type 0
EndsDenied [] = ⊥
EndsDenied (w ∷ log) = w ≡ (setgroups_file, deny)

-- "deny" is in the setgroups file, or the file does not exist, or it took only a part.
abbrev pub IsDenied : ParentKernel → Writes → Type 0
IsDenied k log =
    EndsDenied log
    ⊎ (k.answer log setgroups_file deny ≡ enoent)
    ⊎ (k.answer log setgroups_file deny ≡ partly_written)

-- What was written before the group map, the last write.
abbrev pub DeniedFirst : ParentKernel → Writes → Type 0
DeniedFirst k [] = ⊥
DeniedFirst k ((uid_map_file, text) ∷ log) = ⊥
DeniedFirst k ((setgroups_file, text) ∷ log) = ⊥
DeniedFirst k ((gid_map_file, text) ∷ log) = IsDenied k log

map_result-writes :
    (a : Answer) (w : MapFile × CString) (log log' : Writes)
    → map_result a w log ≡ (true, log')
    → log' ≡ w ∷ log
map_result-writes enoent w log log' h = cc
map_result-writes open_error w log log' h = cc
map_result-writes write_error w log log' h = cc
map_result-writes partly_written w log log' h = cc
map_result-writes all_written w log log' h = ap (λ p. p.1) (sym h)

setgroups_result-writes :
    (a : Answer) (w : MapFile × CString) (log log' : Writes)
    → setgroups_result a w log ≡ (true, log')
    → (log' ≡ w ∷ log) ⊎ (log' ≡ log) × ((a ≡ enoent) ⊎ (a ≡ partly_written))
setgroups_result-writes enoent w log log' h = inr (ap (λ p. p.1) (sym h), inl refl)
setgroups_result-writes open_error w log log' h = cc
setgroups_result-writes write_error w log log' h = cc
setgroups_result-writes partly_written w log log' h = inr (ap (λ p. p.1) (sym h), inr refl)
setgroups_result-writes all_written w log log' h = inl (ap (λ p. p.1) (sym h))

and_then-true :
    (r : Bool × Writes) (next : Writes → Bool × Writes) (log' : Writes)
    → and_then r next ≡ (true, log')
    → (log : Writes) × (r ≡ (true, log)) × (next log ≡ (true, log'))
and_then-true (false, log) next log' h = cc
and_then-true (true, log) next log' h = (log, refl, h)

module _ (k : ParentKernel) where
  deny_setgroups_if-IsDenied :
      (log log' : Writes)
      → deny_setgroups_if k true log ≡ (true, log')
      → IsDenied k log' × (written uid_map_file log' ≡ written uid_map_file log)
  unfolding deny_setgroups_if proc_setgroups_write
  deny_setgroups_if-IsDenied log log' h =
      elim (setgroups_result-writes (k.answer log setgroups_file deny) (setgroups_file, deny) log
        log' h) [ inl e ↦ rw e (inl refl, refl) | inr (e, why) ↦ rw e (inr why, refl) ]

  -- What is known behind the user map: nothing else is written.
  abbrev AfterUid : Option CString → Writes → Type 0
  AfterUid none log = log ≡ []
  AfterUid (some m) log = log ≡ (uid_map_file, map to_newline m) ∷ []

  uid_written :
      (m : Option CString) (log : Writes)
      → if_chosen m [] (λ m. update_map k [] m uid_map_file) ≡ (true, log)
      → AfterUid m log
  unfolding update_map
  uid_written none log h = ap (λ p. p.1) (sym h)
  uid_written (some m) log h =
      map_result-writes (k.answer [] uid_map_file (map to_newline m))
        (uid_map_file, map to_newline m) [] log h

  uid_holds :
      (m : Option CString) (log : Writes)
      → ((t : CString) → m ≡ some t → Lacks newline t)
      → AfterUid m log
      → FileHolds m (written uid_map_file log) × (written gid_map_file log ≡ none)
  uid_holds none log plain h = rw h (refl, refl)
  uid_holds (some m) log plain h = rw h (to_newline_records m (plain m refl), refl)

  -- The group map, with "deny" before it unless -D is given.
  abbrev pub GroupHolds : Bool → Option CString → Writes → Type 0
  GroupHolds deny_setgroups none log = written gid_map_file log ≡ none
  GroupHolds deny_setgroups (some m) log =
      FileHolds (some m) (written gid_map_file log) × (deny_setgroups ≡ true → DeniedFirst k log)

  group_written :
      (m : CString) (denied : Bool) (log log' : Writes)
      → Lacks newline m
      → update_map k log m gid_map_file ≡ (true, log')
      → (denied ≡ true → IsDenied k log)
      → GroupHolds denied (some m) log' × (written uid_map_file log' ≡ written uid_map_file log)
  unfolding update_map
  group_written m denied log log' plain h before =
      let e =
        map_result-writes (k.answer log gid_map_file (map to_newline m))
          (gid_map_file, map to_newline m) log log' h in
      rw e ((to_newline_records m plain, before), refl)

  group_holds :
      (m : Option CString) (denied : Bool) (log log' : Writes)
      → ((t : CString) → m ≡ some t → Lacks newline t)
      → written gid_map_file log ≡ none
      → if_chosen m log
          (λ m. and_then (deny_setgroups_if k denied log) (λ log. update_map k log m gid_map_file))
        ≡ (true, log')
      → GroupHolds denied m log' × (written uid_map_file log' ≡ written uid_map_file log)
  unfolding deny_setgroups_if
  group_holds none denied log log' plain empty h =
      let e : log' ≡ log = ap (λ p. p.1) (sym h) in rw e (empty, refl)
  group_holds (some m) false log log' plain empty h =
      group_written m false log log' (plain m refl) h (λ e. cc)
  group_holds (some m) true log log' plain empty h =
      let (log1, first, second) =
        and_then-true (deny_setgroups_if k true log) (λ log. update_map k log m gid_map_file) log'
          h in
      let (denied, kept) = deny_setgroups_if-IsDenied log log1 first in
      let (holds, same) = group_written m true log1 log' (plain m refl) second (λ e. denied) in
      (holds, same ∙ kept)

  chosen_plain :
      (create_root : Bool) (id : ℕ) (m : Option CString)
      → ((n : ℕ) → Lacks newline (k.decimal n))
      → ((t : CString) → m ≡ some t → Lacks newline t)
      → (t : CString) → chosen_map k create_root id m ≡ some t
      → Lacks newline t
  chosen_plain false id m digits plain t e = plain t e
  chosen_plain true id m digits plain t e =
      let same : root_mapping k id ≡ t = cc in
      rw (sym same) (
        Lacks-append newline (b'0' ∷ b' ' ∷ []) (k.decimal id ++ (b' ' ∷ b'1' ∷ []))
          (differ 48 refl, (differ 32 refl, tt))
          (Lacks-append newline (k.decimal id) (b' ' ∷ b'1' ∷ []) (digits id)
            (differ 32 refl, (differ 49 refl, tt))))
    where
      differ : (c : ℕ) → (c == newline) ≡ false → c ≢ newline
      differ c h = (λ e. ground (arith, h, e))

-- For maps of -M and -G without newlines, and a decimal text without them, when update_child_maps
-- returns, the child's uid_map file holds the records between the commas of the map of -M, or with -r
-- the map from 0 to the user, and the gid_map file likewise those for the group; what has no map is
-- not written. A group map is written behind "deny" in the setgroups file, unless -D is given, the
-- file does not exist, or it took only a part of the word.
pub update_child_maps-Holds :
    (k : ParentKernel) (opts : CmdOptions) (log : Writes)
    → ((n : ℕ) → Lacks newline (k.decimal n))
    → ((t : CString) → opts.uid_map ≡ some t → Lacks newline t)
    → ((t : CString) → opts.gid_map ≡ some t → Lacks newline t)
    → update_child_maps k opts [] ≡ (true, log)
    → FileHolds
        (chosen_map k opts.create_root_mappings k.getuid opts.uid_map)
        (written uid_map_file log)
      × GroupHolds k opts.deny_setgroups
          (chosen_map k opts.create_root_mappings k.getgid opts.gid_map)
          log
unfolding update_child_maps
update_child_maps-Holds k opts log digits plain_uid plain_gid h =
    let uid = chosen_map k opts.create_root_mappings k.getuid opts.uid_map in
    let gid = chosen_map k opts.create_root_mappings k.getgid opts.gid_map in
    let (log1, first, second) =
      and_then-true (if_chosen uid [] (λ m. update_map k [] m uid_map_file))
        (λ log. if_chosen gid log (λ m.
          and_then (deny_setgroups_if k opts.deny_setgroups log)
            (λ log. update_map k log m gid_map_file)))
        log h in
    let (held, none_yet) =
      uid_holds k uid log1
        (chosen_plain k opts.create_root_mappings k.getuid opts.uid_map digits plain_uid)
        (uid_written k uid log1 first) in
    let (group, kept) =
      group_holds k gid opts.deny_setgroups log1 log
        (chosen_plain k opts.create_root_mappings k.getgid opts.gid_map digits plain_gid) none_yet
        second in
    (rw kept held, group)
