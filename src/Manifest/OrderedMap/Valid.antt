-- ===== src/Manifest/OrderedMap/Valid.antt =====
-- The invariant of the ordered map, kept by each of its operations.
use image_assembler.Base.{
  String, Bool, true, false, Option, none, some, List, [], ◌∷◌, ◌++◌, if◌then◌else◌, str_eq,
  str_eq_iff, str_eq_refl, lookup, lookup-insert, lookup-delete, ◌≡◌, refl, arith, Option-cases,
  Bool-cases, inl, inr, contains, ◌||◌,
}
use image_assembler.Manifest.OrderedMap.{OrderedMap, drop_first, set, remove, new}

abbrev pub Nodup : List String → Type 0
Nodup [] = Unit
Nodup (k ∷ ks) = (contains ks k ≡ false) × Nodup ks

abbrev pub present {ℓ} : {V : Type ℓ} → Option V → Bool
present none = false
present (some _) = true

-- No key is listed twice, and the keys are exactly those of the map.
pub record IsValid {ℓ} {V : Type ℓ} (m : OrderedMap V) : Type ℓ where
  pub distinct : Nodup m.keys
  pub listed : (k : String) → contains m.keys k ≡ present (lookup k m.values)

contains-append :
    (ks : List String) (k j : String) → contains (ks ++ k ∷ []) j ≡ (contains ks j || str_eq k j)
unfolding contains
contains-append [] k j = ground arith
contains-append (i ∷ ks) k j = ground (arith, contains-append ks k j)

pub Nodup-append :
    (ks : List String) (k : String) → Nodup ks → contains ks k ≡ false → Nodup (ks ++ k ∷ [])
unfolding contains
Nodup-append [] k d h = (refl, tt)
Nodup-append (i ∷ ks) k d h = (
  ground (arith, contains-append ks k i, str_eq_iff k i, str_eq_iff i k, str_eq_refl k),
  Nodup-append ks k d.1 (ground arith),
)

pub contains-drop_first :
    (ks : List String) (k j : String)
    → Nodup ks
    → contains (drop_first k ks) j ≡ (if str_eq k j then false else contains ks j)
unfolding contains drop_first
contains-drop_first [] k j d = ground arith
contains-drop_first (i ∷ ks) k j d =
    ground (arith, contains-drop_first ks k j d.1, str_eq_iff i k, str_eq_iff i j, str_eq_iff k j)

pub Nodup-drop_first : (ks : List String) (k : String) → Nodup ks → Nodup (drop_first k ks)
unfolding drop_first
Nodup-drop_first [] k d = tt
Nodup-drop_first (i ∷ ks) k d = elim (Bool-cases (str_eq i k)) [
  | inl e ↦ rw e d.1
  | inr e ↦
      rw e
        (ground (arith, contains-drop_first ks k i d.1, str_eq_iff k i), Nodup-drop_first ks k d.1)
]

module _ {ℓ} {V : Type ℓ} where
  pub new-IsValid : IsValid {V = V} new
  unfolding new contains lookup
  new-IsValid = record { distinct = tt; listed = λ j. refl }

  set-Nodup : (k : String) (v : V) (m : OrderedMap V) → IsValid m → Nodup (set k v m).keys
  unfolding set
  set-Nodup k v m h = elim (Option-cases (lookup k m.values)) [
    | inl e ↦ rw (e, Nodup) (Nodup-append m.keys k h.distinct (ground (arith, h.listed k)))
    | inr (w, e) ↦ rw (e, Nodup) h.distinct
  ]

  pub set-IsValid : (k : String) (v : V) (m : OrderedMap V) → IsValid m → IsValid (set k v m)
  unfolding set
  set-IsValid k v m h = record {
    distinct = set-Nodup k v m h;
    listed = λ j. ground (
      arith,
      h.listed j,
      h.listed k,
      contains-append m.keys k j,
      lookup-insert k j v m.values,
      str_eq_iff k j,
    );
  }

  remove-Nodup : (k : String) (m : OrderedMap V) → IsValid m → Nodup (remove k m).keys
  unfolding remove
  remove-Nodup k m h = elim (Option-cases (lookup k m.values)) [
    | inl e ↦ rw (e, Nodup) h.distinct
    | inr (w, e) ↦ rw (e, Nodup) (Nodup-drop_first m.keys k h.distinct)
  ]

  pub remove-IsValid : (k : String) (m : OrderedMap V) → IsValid m → IsValid (remove k m)
  unfolding remove
  remove-IsValid k m h = record {
    distinct = remove-Nodup k m h;
    listed = λ j.
        ground (
          arith,
          h.listed j,
          contains-drop_first m.keys k j h.distinct,
          lookup-delete k j m.values,
        );
  }
