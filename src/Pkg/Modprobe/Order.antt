-- ===== src/Pkg/Modprobe/Order.antt =====
-- In which order modules are loaded, and what a failure stops.
use micro_container.Prelude.{
  leb, Bool-cases, length, ℕ, ◌≡◌, refl, ◌∙◌, inl, inr, Bool, true, false, Option, none, some, List,
  [], ◌∷◌, ◌++◌, sym, ap, append_assoc, append-nil,
}
use micro_container.Pkg.Modprobe.{
  System, State, proc_modules, str_eq, loaded_answer, loaded_in, is_loaded, builtin_answer,
  builtin_of, builtin_in, is_builtin, status_after, check_module_status, deps_answer,
  load_deps_file, deps_in, deps_of, read_deps, resolve_in, resolve_module, load_path, load_resolved,
  load_dep, load_next, load_deps, invalidate_after, load_with_deps, load_unless, modprobe_load,
}

-- Calls of `load_module_path` one after the other, and the result of the whole: after a call that
-- fails there is no other, and a success has no failed call.
pub data IsRun : List (List ℕ × Bool) → Bool → Type 0 where
  ended : (r : Bool) → IsRun [] r
  failed : (path : List ℕ) → IsRun ((path, false) ∷ []) false
  loaded :
      (path : List ℕ) (rest : List (List ℕ × Bool)) (r : Bool)
      → IsRun rest r
      → IsRun ((path, true) ∷ rest) r

-- The step from `s` to the result and the state afterwards added the calls of a run.
pub record IsStep {W : Type 0} (s : State W) (r : Bool × State W) : Type 0 where
  pub calls : List (List ℕ × Bool)
  pub noted : r.1.loads ≡ s.loads ++ calls
  pub is_run : IsRun calls r.0

IsRun-append :
    (xs ys : List (List ℕ × Bool)) (r : Bool) → IsRun xs true → IsRun ys r → IsRun (xs ++ ys) r
IsRun-append _ ys r (ended _) h = h
IsRun-append _ ys r (loaded path rest _ g) h =
    loaded path (rest ++ ys) r (IsRun-append rest ys r g h)

module _ {W : Type 0} (sys : System W) where
  loaded_answer-loads :
      (r : Bool × Option (List ℕ) × W) (name : List ℕ) (s : State W)
      → (loaded_answer sys r name s).1.loads ≡ s.loads
  unfolding loaded_answer
  loaded_answer-loads (false, buf, w) name s = refl
  loaded_answer-loads (true, buf, w) name s = refl

  loaded_in-loads :
      (c : Option (List ℕ)) (name : List ℕ) (s : State W)
      → (loaded_in sys c name s).1.loads ≡ s.loads
  unfolding loaded_in
  loaded_in-loads (some data_) name s = refl
  loaded_in-loads none name s = loaded_answer-loads (sys.io_read proc_modules s.world) name s

  builtin_answer-loads :
      (r : Bool × Option (List ℕ) × W) (name : List ℕ) (s : State W)
      → (builtin_answer sys r name s).1.loads ≡ s.loads
  unfolding builtin_answer
  builtin_answer-loads (false, buf, w) name s = refl
  builtin_answer-loads (true, buf, w) name s = refl

  builtin_of-loads :
      (r : Option (List ℕ) × W) (name : List ℕ) (s : State W)
      → (builtin_of sys r name s).1.loads ≡ s.loads
  unfolding builtin_of
  builtin_of-loads (none, w) name s = refl
  builtin_of-loads (some release, w) name s = builtin_answer-loads _ name s

  builtin_in-loads :
      (c : Option (List ℕ)) (name : List ℕ) (s : State W)
      → (builtin_in sys c name s).1.loads ≡ s.loads
  unfolding builtin_in
  builtin_in-loads (some data_) name s = refl
  builtin_in-loads none name s = builtin_of-loads (sys.uname s.world) name s

  status_after-loads :
      (r : Option Bool × State W) (name : List ℕ) → (status_after sys r name).1.loads ≡ r.1.loads
  unfolding status_after is_builtin
  status_after-loads (none, s) name = refl
  status_after-loads (some true, s) name = refl
  status_after-loads (some false, s) name = builtin_in-loads s.cached_builtin name s

  pub check_module_status-loads :
      (name : List ℕ) (s : State W) → (check_module_status sys name s).1.loads ≡ s.loads
  unfolding check_module_status is_loaded
  check_module_status-loads name s =
      status_after-loads (loaded_in sys s.cached_proc name s) name
      ∙ loaded_in-loads s.cached_proc name s

  deps_answer-loads :
      (r : Bool × Option (List ℕ) × W) (s : State W) → (deps_answer sys r s).1.loads ≡ s.loads
  unfolding deps_answer
  deps_answer-loads (false, buf, w) s = refl
  deps_answer-loads (true, buf, w) s = refl

  load_deps_file-loads :
      (path : List ℕ) (s : State W) → (load_deps_file sys path s).1.loads ≡ s.loads
  unfolding load_deps_file
  load_deps_file-loads path s = elim (Bool-cases (leb 4160 (length path))) [
    | inl long ↦ simp long refl
    | inr fits ↦ simp fits (deps_answer-loads (sys.io_read path s.world) _)
  ]

  deps_in-loads :
      (c : Option (List ℕ)) (path : List ℕ) (s : State W) → (deps_in sys c path s).1.loads ≡ s.loads
  unfolding deps_in
  deps_in-loads none path s = load_deps_file-loads path s
  deps_in-loads (some data_) path s = elim (Bool-cases (str_eq s.cached_deps_path path)) [
    | inl same ↦ simp same refl
    | inr other ↦ simp other (load_deps_file-loads path s)
  ]

  deps_of-loads : (r : Option (List ℕ) × W) (s : State W) → (deps_of sys r s).1.loads ≡ s.loads
  unfolding deps_of
  deps_of-loads (none, w) s = refl
  deps_of-loads (some release, w) s = deps_in-loads s.cached_deps _ _

  resolve_in-loads :
      (r : Option (List ℕ × List ℕ) × State W) (name : List ℕ)
      → (resolve_in sys r name).1.loads ≡ r.1.loads
  unfolding resolve_in
  resolve_in-loads (none, s) name = refl
  resolve_in-loads (some p, s) name = refl

  resolve_module-loads :
      (name : List ℕ) (s : State W) → (resolve_module sys name s).1.loads ≡ s.loads
  unfolding resolve_module read_deps
  resolve_module-loads name s =
      resolve_in-loads (deps_of sys (sys.uname s.world) s) name
      ∙ deps_of-loads (sys.uname s.world) s

  one-IsRun : (path : List ℕ) (r : Bool) → IsRun ((path, r) ∷ []) r
  one-IsRun path false = failed path
  one-IsRun path true = loaded path [] true (ended true)

  load_path-IsStep : (path : List ℕ) (s : State W) → IsStep s (load_path sys path s)
  unfolding load_path
  load_path-IsStep path s = record {
    calls = (path, (sys.load_module_path path s.world).0) ∷ [];
    noted = refl;
    is_run = one-IsRun path (sys.load_module_path path s.world).0;
  }

  no_calls : (s t : State W) (r : Bool) → t.loads ≡ s.loads → IsStep s (r, t)
  no_calls s t r e = record { calls = []; noted = e ∙ sym (append-nil s.loads); is_run = ended r }

  -- A step from a state with the same calls.
  from_same : (s t : State W) (r : Bool × State W) → t.loads ≡ s.loads → IsStep t r → IsStep s r
  from_same s t r e h = record {
    calls = h.calls;
    noted = h.noted ∙ ap (λ x. x ++ h.calls) e;
    is_run = h.is_run;
  }

  invalidate-IsStep :
      (s : State W) (r : Bool × State W) → IsStep s r → IsStep s (invalidate_after sys r)
  unfolding invalidate_after
  invalidate-IsStep s (false, t) h = record { calls = h.calls; noted = h.noted; is_run = h.is_run }
  invalidate-IsStep s (true, t) h = record { calls = h.calls; noted = h.noted; is_run = h.is_run }

  load_next-IsStep :
      (s : State W) (r : Bool × State W) (next : State W → Bool × State W)
      → IsStep s r
      → ((t : State W) → IsStep t (next t))
      → IsStep s (load_next sys r next)
  unfolding load_next
  load_next-IsStep s (false, t) next h more = h
  load_next-IsStep s (true, t) next h more =
      let g = more t in
      record {
        calls = h.calls ++ g.calls;
        noted = g.noted ∙ ap (λ x. x ++ g.calls) h.noted ∙ append_assoc s.loads h.calls g.calls;
        is_run = IsRun-append h.calls g.calls (next t).0 h.is_run g.is_run;
      }

  load_resolved-IsStep :
      (r : Option (List ℕ × List (List ℕ)) × State W) → IsStep r.1 (load_resolved sys r)
  unfolding load_resolved
  load_resolved-IsStep (none, s) = no_calls s s false refl
  load_resolved-IsStep (some (path, deps), s) = load_path-IsStep path s

  load_dep-IsStep : (name : List ℕ) (s : State W) → IsStep s (load_dep sys name s)
  unfolding load_dep
  load_dep-IsStep name s =
      from_same s (resolve_module sys name s).1 _ (resolve_module-loads name s)
        (load_resolved-IsStep (resolve_module sys name s))

  load_deps-IsStep : (deps : List (List ℕ)) (s : State W) → IsStep s (load_deps sys deps s)
  unfolding load_deps
  load_deps-IsStep [] s = no_calls s s true refl
  load_deps-IsStep (dep ∷ deps) s =
      load_next-IsStep s (load_dep sys dep s) (λ t. load_deps sys deps t) (load_dep-IsStep dep s)
        (λ t. load_deps-IsStep deps t)

  load_with_deps-IsStep :
      (r : Option (List ℕ × List (List ℕ)) × State W) → IsStep r.1 (load_with_deps sys r)
  unfolding load_with_deps
  load_with_deps-IsStep (none, s) = no_calls s s false refl
  load_with_deps-IsStep (some (path, deps), s) =
      load_next-IsStep s (load_deps sys deps s) (λ t. invalidate_after sys (load_path sys path t))
        (load_deps-IsStep deps s)
        (λ t. invalidate-IsStep t (load_path sys path t) (load_path-IsStep path t))

  load_unless-IsStep :
      (r : Option Bool × State W) (name : List ℕ) → IsStep r.1 (load_unless sys r name)
  unfolding load_unless
  load_unless-IsStep (none, s) name = no_calls s s false refl
  load_unless-IsStep (some true, s) name = no_calls s s true refl
  load_unless-IsStep (some false, s) name =
      from_same s (resolve_module sys name s).1 _ (resolve_module-loads name s)
        (load_with_deps-IsStep (resolve_module sys name s))

  -- Whatever the system answers: the modules that `modprobe_load` loads are loaded one after the other,
  -- the first one that fails is the last one tried, and the call succeeds only if none failed.
  pub modprobe_load-IsStep : (name : List ℕ) (s : State W) → IsStep s (modprobe_load sys name s)
  unfolding modprobe_load
  modprobe_load-IsStep name s =
      from_same s (check_module_status sys name s).1 _ (check_module_status-loads name s)
        (load_unless-IsStep (check_module_status sys name s) name)
