-- ===== src/Modules/Registration.antt =====
-- What registering and unregistering guarantee of the index of directions.
use translation_runtime_arch.Prelude.{
  ◌⊎◌, String, ◌≡◌, ◌≢◌, true, false, none, some, ◌==◌, eq_iff, arith, Bool-cases, inl, inr,
}
use translation_runtime_arch.Text.{strip, truthy}
use translation_runtime_arch.Dict.{Dict, put, get, has, get-put, delete-put_fresh, eq_self}
use translation_runtime_arch.Modules.{
  LanguageModule, ModuleRegistry, done, refused, direction_conflict, register, unregister, insert,
  forget_direction, get_module,
}

-- Every direction of the index belongs to a registered language module that declares it.
pub record IsIndexed (r : ModuleRegistry) : Type 0 where
  pub keyed : (k : String) (m : LanguageModule) → get k r.modules ≡ some m → m.name ≡ k
  pub declared :
      (d n : String)
      → get d r.directions ≡ some n
      → (m : LanguageModule) × (get n r.modules ≡ some m)
        × (m.kind ≡ "language")
        × (strip m.direction ≡ d)
  pub reachable :
      (k : String) (m : LanguageModule)
      → get k r.modules ≡ some m
      → m.kind ≡ "language"
      → get (strip m.direction) r.directions ≡ some k

module _ (m : LanguageModule) (r : ModuleRegistry) (v : IsIndexed r)
    (fresh : get m.name r.modules ≡ none) where
  keeps_old :
      (n : String) (m' : LanguageModule)
      → get n r.modules ≡ some m'
      → get n (put m.name m r.modules) ≡ some m'
  keeps_old n m' h = ground (arith, get-put m.name n m r.modules, eq_iff m.name n)

  new_or_old :
      (k : String) (m' : LanguageModule)
      → get k (put m.name m r.modules) ≡ some m'
      → ((m.name ≡ k) × (m ≡ m')) ⊎ (get k r.modules ≡ some m')
  new_or_old k m' h = ground (arith, get-put m.name k m r.modules, eq_iff m.name k)

  put-keyed :
      (k : String) (m' : LanguageModule) → get k (put m.name m r.modules) ≡ some m' → m'.name ≡ k
  put-keyed k m' h = elim (new_or_old k m' h) [ inl (e, same) ↦ cc | inr old ↦ v.keyed k m' old ]

  plain-IsIndexed :
      (m.kind == "language") ≡ false → IsIndexed (record r { modules = put m.name m r.modules })
  plain-IsIndexed other = record {
    keyed = put-keyed;
    declared = λ d n h. let (m', g, lang, s) = v.declared d n h in (m', keeps_old n m' g, lang, s);
    reachable = λ k m' h lang. elim (new_or_old k m' h) [
      | inl (e, same) ↦ ground (arith, eq_iff m.kind "language")
      | inr old ↦ v.reachable k m' old lang
    ];
  }

  module _ (lang : m.kind ≡ "language") (unused : get (strip m.direction) r.directions ≡ none) where
    language-IsIndexed : IsIndexed (record {
      modules = put m.name m r.modules;
      directions = put (strip m.direction) m.name r.directions;
    })
    language-IsIndexed = record {
      keyed = put-keyed;
      declared = λ d n h. elim (Bool-cases (strip m.direction == d)) [
        | inl e ↦ (
          m,
          ground (
            arith,
            get-put (strip m.direction) d m.name r.directions,
            get-put m.name n m r.modules,
            eq_iff m.name n,
          ),
          lang,
          (eq_iff (strip m.direction) d).0 e,
        )
        | inr e ↦
            let (m', g, l, s) =
              v.declared d n (ground (arith, get-put (strip m.direction) d m.name r.directions)) in
            (m', keeps_old n m' g, l, s)
      ];
      reachable = λ k m' h l. elim (new_or_old k m' h) [
        | inl (e, same) ↦ ground (
          arith,
          get-put (strip m.direction) (strip m'.direction) m.name r.directions,
          eq_iff (strip m.direction) (strip m'.direction),
        )
        | inr old ↦ ground (
          arith,
          v.reachable k m' old,
          get-put (strip m.direction) (strip m'.direction) m.name r.directions,
          eq_iff (strip m.direction) (strip m'.direction),
        )
      ];
    }

-- what a registration that goes through has tested, and what it returns
pub register-done :
    (m : LanguageModule) (r r' : ModuleRegistry)
    → register m r ≡ done r'
    → (get m.name r.modules ≡ none)
      × (((m.kind == "language") ≡ false) × (r' ≡ record r { modules = put m.name m r.modules })
          ⊎ (m.kind ≡ "language")
            × (truthy (strip m.direction) ≡ true)
            × (get (strip m.direction) r.directions ≡ none)
            × (r' ≡ record {
              modules = put m.name m r.modules;
              directions = put (strip m.direction) m.name r.directions;
            }))
unfolding register insert has
register-done m r r' h = ground (arith, eq_iff m.kind "language")

-- A registration that goes through keeps the registry and its index of directions in step.
pub register-IsIndexed :
    (m : LanguageModule) (r r' : ModuleRegistry)
    → IsIndexed r
    → register m r ≡ done r'
    → IsIndexed r'
register-IsIndexed m r r' v h =
    let (fresh, how) = register-done m r r' h in
    elim how [
      | inl (other, e) ↦ rw e (plain-IsIndexed m r v fresh other)
      | inr (lang, _, unused, e) ↦ rw e (language-IsIndexed m r v fresh lang unused)
    ]

get-put_self {ℓ} : {V : Type ℓ} (k : String) (v : V) (d : Dict V) → get k (put k v d) ≡ some v
get-put_self k v d = ground (arith, get-put k k v d, eq_self k)

forget_clean :
    (m : LanguageModule) (directions : Dict String)
    → truthy m.direction ≡ true
    → m.kind ≡ "language"
    → get m.direction directions ≡ none
    → forget_direction m.name m (put m.direction m.name directions) ≡ directions
unfolding forget_direction
forget_clean m directions t lang unused = ground (
  arith,
  eq_self m.name,
  eq_iff m.kind "language",
  get-put_self m.direction m.name directions,
  delete-put_fresh m.direction m.name directions unused,
)

forget_padded :
    (m : LanguageModule) (directions : Dict String)
    → strip m.direction ≢ m.direction
    → get m.direction directions ≡ none
    → forget_direction m.name m (put (strip m.direction) m.name directions)
      ≡ put (strip m.direction) m.name directions
unfolding forget_direction
forget_padded m directions padded unseen = ground (
  arith,
  eq_iff (strip m.direction) m.direction,
  get-put (strip m.direction) m.direction m.name directions,
)

-- Unregistering a module that was just registered restores the registry, if the module is no
-- language module or its direction has no white space around it.
pub unregister-register :
    (m : LanguageModule) (r r' : ModuleRegistry)
    → register m r ≡ done r'
    → ((m.kind == "language") ≡ false) ⊎ (strip m.direction ≡ m.direction)
    → unregister m.name r' ≡ done r
unfolding unregister
unregister-register m r r' h clean =
    let (fresh, how) = register-done m r r' h in
    let found = get-put_self m.name m r.modules in
    let restored = delete-put_fresh m.name m r.modules fresh in
    elim how [
      | inl (other, e) ↦ rw e (unfold forget_direction in ground arith)
      | inr (lang, t, unused, e) ↦
          rw (e, unregister, found)
            (ground (arith, forget_clean m r.directions, eq_iff m.kind "language"))
    ]

register_again :
    (m : LanguageModule) (r r' : ModuleRegistry)
    → register m r ≡ done r'
    → m.kind ≡ "language"
    → truthy (strip m.direction) ≡ true
    → get m.name r.modules ≡ none
    → (directions : Dict String) → get (strip m.direction) directions ≡ some m.name
    → register m (record { modules = r.modules; directions = directions })
      ≡ refused (direction_conflict m.name)
unfolding register insert has
register_again m r r' h lang t fresh directions taken = ground (arith, eq_iff m.kind "language")

-- Otherwise the direction stays in the index: the module is gone, and registering it again is
-- refused for a conflict with itself.
pub unregister-register_stale :
    (m : LanguageModule) (r r' : ModuleRegistry)
    → register m r ≡ done r'
    → m.kind ≡ "language"
    → strip m.direction ≢ m.direction
    → get m.direction r.directions ≡ none
    → (r'' : ModuleRegistry) × (unregister m.name r' ≡ done r'')
      × (get_module m.name r'' ≡ none)
      × (register m r'' ≡ refused (direction_conflict m.name))
unfolding unregister get_module
unregister-register_stale m r r' h lang padded unseen =
    let (fresh, how) = register-done m r r' h in
    elim how [
      | inl (other, e) ↦ absurd (ground (arith, eq_iff m.kind "language"))
      | inr (_, t, unused, e) ↦
          let directions = put (strip m.direction) m.name r.directions in
          (
            record { modules = r.modules; directions = directions },
            rw (e, unregister, get-put_self m.name m r.modules)
                (cc (
                  delete-put_fresh m.name m r.modules fresh,
                  forget_padded m r.directions padded unseen,
                )),
            fresh,
            register_again m r r' h lang t fresh directions
                (get-put_self (strip m.direction) m.name r.directions),
          )
    ]
