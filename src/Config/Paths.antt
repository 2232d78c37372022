-- ===== src/Config/Paths.antt =====
-- Which configurations are accepted.
use translation_runtime_arch.Prelude.{
  String, ◌≡◌, refl, true, eq_iff, List, [], ◌∷◌, ◌++◌, arith, ◌↔◌,
}
use translation_runtime_arch.Config.{
  ◌>>◌, BootstrapConfig, FileSystem, resolved, is_below, Loaded, ok, err, check_path,
  validate_paths,
}

-- a path that begins with the parts of another one
abbrev pub IsBelow : List String → List String → Type 0
IsBelow base path = (rest : List String) × (path ≡ base ++ rest)

IsBelow-is_below : (base path : List String) → is_below base path ≡ true → IsBelow base path
unfolding is_below
IsBelow-is_below [] path h = (path, refl)
IsBelow-is_below (b ∷ base) [] h = ground (arith, h)
IsBelow-is_below (b ∷ base) (p ∷ path) h =
    let (rest, e) = IsBelow-is_below base path (ground (arith, h)) in
    (rest, ground (arith, h, e, eq_iff b p))

is_below-append : (base rest : List String) → is_below base (base ++ rest) ≡ true
unfolding is_below
is_below-append [] rest = refl
is_below-append (b ∷ base) rest = ground (arith, eq_iff b b, is_below-append base rest)

-- where the three runtime paths lead to
pub record IsContained (fs : FileSystem) (c : BootstrapConfig) : Type 0 where
  pub cache_below :
      IsBelow
        (resolved fs fs.cwd c.base_dir)
        (resolved fs (resolved fs fs.cwd c.base_dir) c.cache_directory)
  pub compilation_below :
      IsBelow
        (resolved fs fs.cwd c.base_dir)
        (resolved fs (resolved fs fs.cwd c.base_dir) c.compilation_dir)
  pub audit_below :
      IsBelow
        (resolved fs fs.cwd c.base_dir)
        (resolved fs (resolved fs fs.cwd c.base_dir) c.audit_trace)

check_path-IsBelow :
    (fs : FileSystem) (base : List String) (field path : String)
    → check_path fs base field path ≡ ok tt
    → IsBelow base (resolved fs base path)
unfolding check_path
check_path-IsBelow fs base field path h =
    IsBelow-is_below base (resolved fs base path) (ground (arith, h))

IsBelow-check_path :
    (fs : FileSystem) (base : List String) (field path : String)
    → IsBelow base (resolved fs base path)
    → check_path fs base field path ≡ ok tt
unfolding check_path
IsBelow-check_path fs base field path (rest, e) =
    rw (e, check_path) (rw (is_below-append base rest) refl)

all_ok :
    {A : Type 0} (x y z : Loaded (Unit {0})) (a : A)
    → (x >> y >> z >> ok a) ≡ ok a
    → (x ≡ ok tt) × (y ≡ ok tt) × (z ≡ ok tt)
all_ok (ok u) (ok v) (ok w) a h = (refl, refl, refl)
all_ok (ok u) (ok v) (err e) a h = absurd (ground (arith, h))
all_ok (ok u) (err e) z a h = absurd (ground (arith, h))
all_ok (err e) y z a h = absurd (ground (arith, h))

module _ (fs : FileSystem) (c : BootstrapConfig) where
  validated : validate_paths fs c ≡ ok c → IsContained fs c
  unfolding validate_paths
  validated h =
      let base = resolved fs fs.cwd c.base_dir in
      let (x, y, z) =
        all_ok (check_path fs base "cache_directory" c.cache_directory)
          (check_path fs base "compilation_dir" c.compilation_dir)
          (check_path fs base "audit_trace" c.audit_trace) c h in
      record {
        cache_below = check_path-IsBelow fs base "cache_directory" c.cache_directory x;
        compilation_below = check_path-IsBelow fs base "compilation_dir" c.compilation_dir y;
        audit_below = check_path-IsBelow fs base "audit_trace" c.audit_trace z;
      }

  contained : IsContained fs c → validate_paths fs c ≡ ok c
  unfolding validate_paths
  contained i =
      let base = resolved fs fs.cwd c.base_dir in
      rw
        (
          IsBelow-check_path fs base "cache_directory" c.cache_directory i.cache_below,
          IsBelow-check_path fs base "compilation_dir" c.compilation_dir i.compilation_below,
          IsBelow-check_path fs base "audit_trace" c.audit_trace i.audit_below,
        )
        refl

  -- The check of the paths accepts a configuration exactly if its cache directory, its compilation
  -- directory and its audit trace, with links and dots followed, lie below its base directory.
  pub validate_paths_iff : (validate_paths fs c ≡ ok c) ↔ IsContained fs c
  validate_paths_iff = (validated, contained)
