-- ===== src/Pkg/Modprobe.antt =====
-- modprobe.c and the cache of resolve.c: loading a module with its dependencies. What the functions
-- ask of the system is the record `System`; they pass on the world and their static buffers, and
-- `loads` notes each call of `load_module_path` with its result, the last one at the end.
pub mod Order
use micro_container.Prelude.{
  leb, ◌==◌, if◌then◌else◌, length, take, ℕ, Bool, true, false, Option, none, some, List, [], ◌∷◌,
  ◌++◌, str_eq,
}
use micro_container.Pkg.Deps.{DepLine, find_in_buf, extract_deps}
use micro_container.Pkg.Status.{scan_module_list}

-- `uname`; `io_read` into an empty buffer, with what the buffer holds afterwards, which may be
-- something where the reading failed halfway, `none` for NULL; and `load_module_path`.
pub record System (W : Type 0) : Type 0 where
  pub uname : W → Option (List ℕ) × W
  pub io_read : List ℕ → W → Bool × Option (List ℕ) × W
  pub load_module_path : List ℕ → W → Bool × W

pub record State (W : Type 0) : Type 0 where
  pub world : W
  pub cached_proc : Option (List ℕ)
  pub cached_builtin : Option (List ℕ)
  pub cached_deps : Option (List ℕ)
  pub cached_deps_path : List ℕ
  pub loads : List (List ℕ × Bool)

-- "/lib/modules", "/proc/modules", "modules.builtin" and "modules.dep".
abbrev pub modules_base : List ℕ
modules_base =
    b'/' ∷ b'l' ∷ b'i' ∷ b'b' ∷ b'/' ∷ b'm' ∷ b'o' ∷ b'd' ∷ b'u' ∷ b'l' ∷ b'e' ∷ b's' ∷ []

abbrev pub proc_modules : List ℕ
proc_modules =
    b'/' ∷ b'p' ∷ b'r' ∷ b'o' ∷ b'c' ∷ b'/' ∷ b'm' ∷ b'o' ∷ b'd' ∷ b'u' ∷ b'l' ∷ b'e' ∷ b's' ∷ []

abbrev pub modules_builtin : List ℕ
modules_builtin =
    b'm' ∷ b'o' ∷ b'd' ∷ b'u' ∷ b'l' ∷ b'e' ∷ b's' ∷ b'.' ∷ b'b' ∷ b'u' ∷ b'i' ∷ b'l' ∷ b't' ∷ b'i'
    ∷ b'n' ∷ []

abbrev pub modules_dep : List ℕ
modules_dep = b'm' ∷ b'o' ∷ b'd' ∷ b'u' ∷ b'l' ∷ b'e' ∷ b's' ∷ b'.' ∷ b'd' ∷ b'e' ∷ b'p' ∷ []

unfoldable pub build_modules_path : List ℕ → List ℕ → List ℕ → List ℕ
build_modules_path base release rest = base ++ b'/' ∷ release ++ b'/' ∷ rest

-- The text in a buffer.
abbrev pub held : Option (List ℕ) → List ℕ
held none = []
held (some data_) = data_

module _ {W : Type 0} (sys : System W) where
  unfoldable pub modprobe_cache_invalidate : State W → State W
  modprobe_cache_invalidate s = record s { cached_proc = none; cached_builtin = none }

  -- The answer of a list that was read, whose buffer is kept.
  unfoldable pub loaded_answer :
      Bool × Option (List ℕ) × W → List ℕ → State W → Option Bool × State W
  loaded_answer (false, buf, w) name s = (none, record s { world = w; cached_proc = buf })
  loaded_answer (true, buf, w) name s =
      (some (scan_module_list (held buf) name), record s { world = w; cached_proc = buf })

  unfoldable pub loaded_in : Option (List ℕ) → List ℕ → State W → Option Bool × State W
  unfolding loaded_answer
  loaded_in (some data_) name s = (some (scan_module_list data_ name), s)
  loaded_in none name s = loaded_answer (sys.io_read proc_modules s.world) name s

  unfoldable pub is_loaded : List ℕ → State W → Option Bool × State W
  unfolding loaded_in
  is_loaded name s = loaded_in s.cached_proc name s

  unfoldable pub builtin_answer :
      Bool × Option (List ℕ) × W → List ℕ → State W → Option Bool × State W
  builtin_answer (false, buf, w) name s = (none, record s { world = w; cached_builtin = buf })
  builtin_answer (true, buf, w) name s =
      (some (scan_module_list (held buf) name), record s { world = w; cached_builtin = buf })

  unfoldable pub builtin_of : Option (List ℕ) × W → List ℕ → State W → Option Bool × State W
  unfolding builtin_answer build_modules_path
  builtin_of (none, w) name s = (none, record s { world = w })
  builtin_of (some release, w) name s =
      builtin_answer (sys.io_read (build_modules_path modules_base release modules_builtin) w) name
        s

  unfoldable pub builtin_in : Option (List ℕ) → List ℕ → State W → Option Bool × State W
  unfolding builtin_of
  builtin_in (some data_) name s = (some (scan_module_list data_ name), s)
  builtin_in none name s = builtin_of (sys.uname s.world) name s

  unfoldable pub is_builtin : List ℕ → State W → Option Bool × State W
  unfolding builtin_in
  is_builtin name s = builtin_in s.cached_builtin name s

  unfoldable pub status_after : Option Bool × State W → List ℕ → Option Bool × State W
  unfolding is_builtin
  status_after (none, s) name = (none, s)
  status_after (some true, s) name = (some true, s)
  status_after (some false, s) name = is_builtin name s

  -- 1 where the module is there, 0 where it is not, -1 where that is not known.
  unfoldable pub check_module_status : List ℕ → State W → Option Bool × State W
  unfolding status_after is_loaded
  check_module_status name s = status_after (is_loaded name s) name

  unfoldable pub deps_answer : Bool × Option (List ℕ) × W → State W → Option (List ℕ) × State W
  deps_answer (false, buf, w) s = (none, record s { world = w; cached_deps = buf })
  deps_answer (true, buf, w) s = (some (held buf), record s { world = w; cached_deps = buf })

  -- `cached_deps_path` has 4160 bytes with its NUL.
  unfoldable pub load_deps_file : List ℕ → State W → Option (List ℕ) × State W
  unfolding deps_answer
  load_deps_file path s =
      let s' = record s { cached_deps = none; cached_deps_path = take 4159 path } in
      if leb 4160 (length path) then (none, s') else deps_answer (sys.io_read path s.world) s'

  unfoldable pub deps_in : Option (List ℕ) → List ℕ → State W → Option (List ℕ) × State W
  unfolding load_deps_file
  deps_in none path s = load_deps_file path s
  deps_in (some data_) path s =
      if str_eq s.cached_deps_path path then (some data_, s) else load_deps_file path s

  unfoldable pub deps_of : Option (List ℕ) × W → State W → Option (List ℕ × List ℕ) × State W
  unfolding deps_in build_modules_path
  deps_of (none, w) s = (none, record s { world = w })
  deps_of (some release, w) s =
      let (buf, s') =
        deps_in s.cached_deps (build_modules_path modules_base release modules_dep)
          (record s { world = w }) in
      (elim buf [ none ↦ none | some data_ ↦ some (data_, release) ], s')

  -- The text of modules.dep, and the release.
  unfoldable pub read_deps : State W → Option (List ℕ × List ℕ) × State W
  unfolding deps_of
  read_deps s = deps_of (sys.uname s.world) s

  unfoldable pub process_dep_line : Option DepLine → List ℕ → Option (List ℕ × List (List ℕ))
  unfolding build_modules_path extract_deps
  process_dep_line none release = none
  process_dep_line (some d) release =
      some (build_modules_path modules_base release d.mod_path, extract_deps d.deps_str)

  unfoldable pub resolve_in :
      Option (List ℕ × List ℕ) × State W → List ℕ → Option (List ℕ × List (List ℕ)) × State W
  unfolding process_dep_line find_in_buf
  resolve_in (none, s) name = (none, s)
  resolve_in (some (buf, release), s) name = (process_dep_line (find_in_buf buf name) release, s)

  -- The path of the module and the names of those that it depends on.
  unfoldable pub resolve_module : List ℕ → State W → Option (List ℕ × List (List ℕ)) × State W
  unfolding resolve_in read_deps
  resolve_module name s = resolve_in (read_deps s) name

  -- The call of `load_module_path`, noted.
  unfoldable pub load_path : List ℕ → State W → Bool × State W
  load_path path s =
      let (r, w) = sys.load_module_path path s.world in
      (r, record s { world = w; loads = s.loads ++ (path, r) ∷ [] })

  unfoldable pub load_resolved : Option (List ℕ × List (List ℕ)) × State W → Bool × State W
  unfolding load_path
  load_resolved (none, s) = (false, s)
  load_resolved (some (path, deps), s) = load_path path s

  unfoldable pub load_dep : List ℕ → State W → Bool × State W
  unfolding load_resolved resolve_module
  load_dep name s = load_resolved (resolve_module name s)

  -- The rest of the loop is called only where the dependency was loaded.
  unfoldable pub load_next : Bool × State W → (State W → Bool × State W) → Bool × State W
  load_next (false, s) next = (false, s)
  load_next (true, s) next = next s

  unfoldable pub load_deps : List (List ℕ) → State W → Bool × State W
  unfolding load_next load_dep
  load_deps [] s = (true, s)
  load_deps (dep ∷ deps) s = load_next (load_dep dep s) (λ s'. load_deps deps s')

  unfoldable pub invalidate_after : Bool × State W → Bool × State W
  unfolding modprobe_cache_invalidate
  invalidate_after (false, s) = (false, s)
  invalidate_after (true, s) = (true, modprobe_cache_invalidate s)

  unfoldable pub load_with_deps : Option (List ℕ × List (List ℕ)) × State W → Bool × State W
  unfolding load_next load_deps invalidate_after load_path
  load_with_deps (none, s) = (false, s)
  load_with_deps (some (path, deps), s) =
      load_next (load_deps deps s) (λ s'. invalidate_after (load_path path s'))

  unfoldable pub load_unless : Option Bool × State W → List ℕ → Bool × State W
  unfolding load_with_deps resolve_module
  load_unless (none, s) name = (false, s)
  load_unless (some true, s) name = (true, s)
  load_unless (some false, s) name = load_with_deps (resolve_module name s)

  unfoldable pub modprobe_load : List ℕ → State W → Bool × State W
  unfolding load_unless check_module_status
  modprobe_load name s = load_unless (check_module_status name s) name
