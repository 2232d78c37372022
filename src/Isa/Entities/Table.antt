-- ===== src/Isa/Entities/Table.antt =====
-- The entity table that BUILD_ENTITY_TABLE makes.
use translation_runtime_arch.Prelude.{
  String, ◌≡◌, refl, Bool, true, false, List, [], ◌∷◌, ◌++◌, map, elem, arith, ◌==◌, if◌then◌else◌,
  eq_iff,
}
use translation_runtime_arch.Memory.{Entity}
use translation_runtime_arch.Modules.{LanguageModule}
use translation_runtime_arch.Utils.{extract_entities}
use translation_runtime_arch.Vm.{Host, Vm, log, active_module}
use translation_runtime_arch.Vm.Exec.{Outcome, ok, err}
use translation_runtime_arch.Isa.Entities.{
  build_entity_table, collect_table, final_entity, finish_table,
}

abbrev pub names : List Entity → List String
names es = map (λ (e : Entity). e.name) es

-- no name comes twice, and every entity is immutable
unfoldable pub IsTable : List Entity → Type 0
IsTable [] = Unit
IsTable (e ∷ es) = (elem e.name (names es) ≡ false) × (e.mutable_ ≡ false) × IsTable es

elem-snoc :
    (s : String) (es : List Entity) (e : Entity)
    → elem s (names es) ≡ false
    → (e.name == s) ≡ false
    → elem s (names (es ++ e ∷ [])) ≡ false
unfolding elem
elem-snoc s [] e p q = ground (arith, p, q)
elem-snoc s (x ∷ es) e p q = ground (arith, elem-snoc s es e, p, q)

head-distinct :
    (x e : Entity) (es : List Entity)
    → elem e.name (names (x ∷ es)) ≡ false
    → ((e.name == x.name) ≡ false) × (elem e.name (names es) ≡ false)
unfolding elem
head-distinct x e es p = ground (arith, eq_iff x.name e.name, eq_iff e.name x.name)

IsTable-snoc :
    (es : List Entity) (e : Entity)
    → IsTable es
    → elem e.name (names es) ≡ false
    → e.mutable_ ≡ false
    → IsTable (es ++ e ∷ [])
unfolding IsTable elem
IsTable-snoc [] e t p m = (refl, m, tt)
IsTable-snoc (x ∷ es) e t p m =
    let d = head-distinct x e es p in
    (elem-snoc x.name es e t.0 d.0, t.1, IsTable-snoc es e t.2 d.1 m)

if-IsTable :
    (b : Bool) (x y : List Entity × Vm)
    → IsTable x.0
    → (b ≡ false → IsTable y.0)
    → IsTable (if b then x else y).0
if-IsTable true x y p q = p
if-IsTable false x y p q = q refl

collect_table-IsTable :
    (h : Host) (m : LanguageModule) (table es : List Entity) (v : Vm)
    → IsTable table
    → IsTable (collect_table h m table es v).0
unfolding collect_table final_entity IsTable
collect_table-IsTable h m table [] v t = t
collect_table-IsTable h m table (e ∷ es) v t =
    if-IsTable (elem e.name (names table)) _ _ (collect_table-IsTable h m table es v t) (λ q.
      collect_table-IsTable h m (table ++ final_entity m e ∷ []) es _
        (IsTable-snoc table (final_entity m e) t q refl))

-- what an outcome's table is
abbrev pub HasTable : Outcome (List Entity) × Vm → Type 0
HasTable (ok table, v) = IsTable table × (v.ctx.entity_table ≡ table)
HasTable (err e, v) = ⊥

-- BUILD_ENTITY_TABLE does not raise; its table names no entity twice, every entity of it is
-- immutable, and the context holds that table.
pub build_entity_table-HasTable :
    (h : Host) (source : String) (v : Vm) → HasTable (build_entity_table h source v)
unfolding build_entity_table finish_table log IsTable
build_entity_table-HasTable h source v = (
  collect_table-IsTable h (active_module h v.ctx) [] (extract_entities h.unicode source) v tt,
  refl,
)
