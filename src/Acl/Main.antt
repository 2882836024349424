-- ===== src/Acl/Main.antt =====
-- `main` of book-src/acl/acl_update.c: the options, and the files one after the other.
use linux_programming_interf.Common.{
  ℕ, ◌+◌, Bool, true, false, ◌&&◌, ◌||◌, not, Option, none, some, List, [], ◌∷◌, ◌==◌,
  if◌then◌else◌,
}
use linux_programming_interf.Common.Text.{CString}
use linux_programming_interf.Acl.{AccessControlEntry, parse_acl}
use linux_programming_interf.Acl.Library.{AclLibrary}
use linux_programming_interf.Acl.Update.{finished, refused, update_file}

-- What getopt() gives; `opt_bad` is '?'.
pub data Opt : Type 0 where
  opt_m opt_x opt_v : CString → Opt
  opt_k opt_d opt_n opt_bad : Opt

pub record Options : Type 0 where
  pub modify_acl : Bool
  pub remove_acl : Bool
  pub remove_default_acl : Bool
  pub check_validity : Bool
  pub use_default_acl : Bool
  pub recalc_mask : Bool
  pub acl_spec : CString
  pub opt_cnt : ℕ

abbrev pub no_options : Options
no_options = record {
  modify_acl = false;
  remove_acl = false;
  remove_default_acl = false;
  check_validity = false;
  use_default_acl = false;
  recalc_mask = true;
  acl_spec = [];
  opt_cnt = 0;
}

-- The option loop: `none` is the call of `usageError`.
unfoldable pub read_opts : List Opt → Options → Option Options
read_opts [] o = some o
read_opts (opt_m spec ∷ opts) o =
    read_opts opts (record o { modify_acl = true; acl_spec = spec; opt_cnt = o.opt_cnt + 1 })
read_opts (opt_x spec ∷ opts) o =
    read_opts opts (record o { remove_acl = true; acl_spec = spec; opt_cnt = o.opt_cnt + 1 })
read_opts (opt_k ∷ opts) o =
    read_opts opts (record o { remove_default_acl = true; opt_cnt = o.opt_cnt + 1 })
read_opts (opt_v spec ∷ opts) o =
    read_opts opts (record o { check_validity = true; acl_spec = spec; opt_cnt = o.opt_cnt + 1 })
read_opts (opt_d ∷ opts) o = read_opts opts (record o { use_default_acl = true })
read_opts (opt_n ∷ opts) o = read_opts opts (record o { recalc_mask = false })
read_opts (opt_bad ∷ opts) o = none

-- How the program exits, with the files as they are then.
pub data MainEnd (S : Type 0) : Type 0 where
  usage_error : MainEnd S
  exits_with_failure : S → MainEnd S
  exits_with_success : S → MainEnd S

-- The ACLs of the files, as `S`; the flag is that for ACL_TYPE_DEFAULT.
pub record FileCalls (A S : Type 0) : Type 0 where
  pub delete_def_file : S → CString → Option S
  pub get_file : S → CString → Bool → Option A
  pub stored : S → CString → Bool → A → S

module _ (lib : AclLibrary) {S : Type 0} (calls : FileCalls lib.Acl S)
    (user_id_from_name group_id_from_name : CString → Option ℕ) where
  -- One file: the flag tells whether the program goes on.
  unfoldable pub update_named : Options → List AccessControlEntry → S → CString → Bool × S
  unfolding update_file
  update_named o aces files path = elim (calls.get_file files path o.use_default_acl) [
    | none ↦ (false, files)
    | some acl ↦ elim (update_file lib o.remove_acl o.recalc_mask aces acl) [
      | finished acl' ↦ (true, calls.stored files path o.use_default_acl acl')
      | refused acl' ↦ (false, calls.stored files path o.use_default_acl acl')
    ]
  ]

  abbrev pub delete_default : S → CString → Bool × S
  delete_default files path = elim (calls.delete_def_file files path) [
    | none ↦ (false, files)
    | some files' ↦ (true, files')
  ]

  -- The loop over the file arguments.
  unfoldable pub each_file : Options → List AccessControlEntry → S → List CString → MainEnd S
  unfolding update_named
  each_file o aces files [] = exits_with_success files
  each_file o aces files (path ∷ paths) =
      let (goes_on, files') =
        if o.remove_default_acl
        then delete_default files path
        else update_named o aces files path in
      let rest = each_file o aces files' paths in
      if goes_on then rest else exits_with_failure files'

  -- From the options on, of which one of -m, -x, -k and -V is given.
  unfoldable pub with_options : Options → S → List CString → MainEnd S
  unfolding parse_acl each_file
  with_options o files paths =
      if o.check_validity
      then elim (parse_acl user_id_from_name group_id_from_name o.acl_spec true) [
        | none ↦ exits_with_failure files
        | some aces ↦ exits_with_success files
      ]
      else if o.modify_acl || o.remove_acl
      then elim (parse_acl user_id_from_name group_id_from_name o.acl_spec o.modify_acl) [
        | none ↦ usage_error
        | some aces ↦ each_file o aces files paths
      ]
      else each_file o [] files paths

  unfoldable pub main : List Opt → S → List CString → MainEnd S
  unfolding read_opts with_options
  main opts files paths = elim (read_opts opts no_options) [
    | none ↦ usage_error
    | some o ↦
        if not (o.opt_cnt == 1)
        then usage_error
        else if o.check_validity && o.use_default_acl
        then usage_error
        else with_options o files paths
  ]
