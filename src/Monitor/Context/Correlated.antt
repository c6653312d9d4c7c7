-- ===== src/Monitor/Context/Correlated.antt =====
-- monitor/context.go: the ID of an entry is that of the position it was made at.
use image_assembler.Base.{
  String, Bool, true, false, List, [], ◌∷◌, ◌≡◌, refl, ap, sym, subst, ◌∙◌, contains, str_eq,
  str_eq_refl, ◌⊎◌, inl, inr, if◌then◌else◌, Bool-cases, ◌||◌,
}
use image_assembler.Value.{Value}
use image_assembler.Monitor.Context.{
  Context, new_context, set_pipeline, set_stage, with_origin, id, as_dict, position, full_dict,
  compact_dict,
}

-- What the builder does with a context.
pub data Move : Type 0 where
  to_pipeline : String → String → Move
  to_stage : String → String → Move
  to_origin : String → Move
  show : Move

module _ (hash : Value → String) where
  abbrev pub move : Move → List String × Context → List String × Context
  move (to_pipeline name i) (history, c) = (history, set_pipeline name i c)
  move (to_stage name i) (history, c) = (history, set_stage name i c)
  move (to_origin origin) (history, c) = (history, with_origin origin c)
  move show (history, c) = let shown = as_dict hash history c in (shown.0, shown.1)

  abbrev pub moves : List Move → List String × Context → List String × Context
  moves [] at = at
  moves (m ∷ ms) at = moves ms (move m at)

  -- The cached ID is that of the position.
  abbrev IsFresh : Context → Type 0
  IsFresh c = (c.id_cache ≡ "") ⊎ (c.id_cache ≡ hash (position c))

  id-IsFresh : (c : Context) → IsFresh c → IsFresh (id hash c).0
  unfolding id position
  id-IsFresh c f = by_cache (str_eq c.id_cache "")
    where
      filled : Bool → Context × String
      filled b =
          if b
          then (record c { id_cache = hash (position c) }, hash (position c))
          else (c, c.id_cache)

      by_cache : (b : Bool) → IsFresh (filled b).0
      by_cache true = inr refl
      by_cache false = f

  id-position : (c : Context) → position (id hash c).0 ≡ position c
  unfolding id position
  id-position c = by_cache (str_eq c.id_cache "")
    where
      filled : Bool → Context × String
      filled b =
          if b
          then (record c { id_cache = hash (position c) }, hash (position c))
          else (c, c.id_cache)

      by_cache : (b : Bool) → position (filled b).0 ≡ position c
      by_cache true = refl
      by_cache false = refl

  -- The context that AsDict leaves is the one that ID leaves.
  as_dict-id : (history : List String) (c : Context) → (as_dict hash history c).1 ≡ (id hash c).0
  unfolding as_dict
  as_dict-id history c = elim (Bool-cases (contains history (id hash c).1)) [
    | inl e ↦ rw e
    | inr e ↦ rw e
  ]

  as_dict-contains :
      (history : List String) (c : Context)
      → contains (as_dict hash history c).0 (id hash c).1 ≡ true
  unfolding as_dict contains
  as_dict-contains history c = elim (Bool-cases (contains history (id hash c).1)) [
    | inl e ↦ rw e e
    | inr e ↦ rw (e, str_eq_refl (id hash c).1)
  ]

  move-IsFresh : (m : Move) (at : List String × Context) → IsFresh at.1 → IsFresh (move m at).1
  unfolding set_pipeline set_stage with_origin
  move-IsFresh (to_pipeline name i) at f = inl refl
  move-IsFresh (to_stage name i) at f = inl refl
  move-IsFresh (to_origin origin) at f = by_test (str_eq origin "" || str_eq origin at.1.origin)
    where
      moved : Bool → Context
      moved b = if b then at.1 else record at.1 { origin = origin; id_cache = "" }

      by_test : (b : Bool) → IsFresh (moved b)
      by_test true = f
      by_test false = inl refl
  move-IsFresh show at f = subst IsFresh (sym (as_dict-id at.0 at.1)) (id-IsFresh at.1 f)

  moves-IsFresh :
      (ms : List Move) (at : List String × Context) → IsFresh at.1 → IsFresh (moves ms at).1
  moves-IsFresh [] at f = f
  moves-IsFresh (m ∷ ms) at f = moves-IsFresh ms (move m at) (move-IsFresh m at f)

  fresh_id : (c : Context) → IsFresh c → (id hash c).1 ≡ hash (position c)
  unfolding id
  fresh_id c (inl e) = rw (e, str_eq_refl "")
  fresh_id c (inr e) = elim (Bool-cases (str_eq c.id_cache "")) [ inl b ↦ rw b | inr b ↦ rw b e ]

  as_dict_shows :
      (history : List String) (c : Context)
      → IsFresh c
      → let i = hash (position c) in
        (as_dict hash history c).2 ≡ (if contains history i then compact_dict i else full_dict i c)
  unfolding as_dict
  as_dict_shows history c f = elim (Bool-cases (contains history (hash (position c)))) [
    | inl e ↦ rw (fresh_id c f, e)
    | inr e ↦ rw (fresh_id c f, e)
  ]

  as_dict_again :
      (history : List String) (c : Context)
      → IsFresh c
      → let shown = as_dict hash history c in
        (as_dict hash shown.0 shown.1).2 ≡ compact_dict (hash (position c))
  as_dict_again history c f = as_dict_shows shown.0 shown.1 fresh ∙ rw (at_position, known)
    where
      shown : List String × Context × Value
      shown = as_dict hash history c

      fresh : IsFresh shown.1
      fresh = subst IsFresh (sym (as_dict-id history c)) (id-IsFresh c f)

      at_position : position shown.1 ≡ position c
      at_position = ap position (as_dict-id history c) ∙ id-position c

      known : contains shown.0 (hash (position c)) ≡ true
      known = subst (λ i. contains shown.0 i ≡ true) (fresh_id c f) (as_dict-contains history c)

  -- However a context was moved and shown since NewContext, AsDict names the position it is at now by
  -- its hash: in full if no entry of the history had that ID, and by the ID alone if one had; asked
  -- again at the same position it gives the ID alone.
  pub as_dict_correlated :
      (origin : String) (ms : List Move)
      → let at = moves ms ([], new_context origin) in
        let i = hash (position at.1) in
        let shown = as_dict hash at.0 at.1 in
        (shown.2 ≡ (if contains at.0 i then compact_dict i else full_dict i at.1))
        × ((as_dict hash shown.0 shown.1).2 ≡ compact_dict i)
  unfolding new_context
  as_dict_correlated origin ms = (as_dict_shows at.0 at.1 fresh, as_dict_again at.0 at.1 fresh)
    where
      at : List String × Context
      at = moves ms ([], new_context origin)

      fresh : IsFresh at.1
      fresh = moves-IsFresh ms ([], new_context origin) (inl refl)
