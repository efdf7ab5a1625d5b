-- ===== src/Rule/Inputs.antt =====
-- The inputs of a rule: ids and ids with subscripts, each in the order of the list.
use Prim.Native.String.{String}
use exm_turbine.Common.{
  ◌≡◌, refl, ◌∙◌, Option, none, some, List, [], ◌∷◌, ◌++◌, append_assoc, append-nil, ℤ, ltb,
  if◌then◌else◌, length, done,
}
use exm_turbine.Rule.{RuleEnv, max_inputs, extract_loop, turbine_extract_ids}

-- The handles without and those with a subscript.
abbrev pub plain : List (ℤ × Option String) → List ℤ
plain [] = []
plain ((id, none) ∷ hs) = id ∷ plain hs
plain ((id, some key) ∷ hs) = plain hs

abbrev pub subscripted : List (ℤ × Option String) → List (ℤ × String)
subscripted [] = []
subscripted ((id, none) ∷ hs) = subscripted hs
subscripted ((id, some key) ∷ hs) = (id, key) ∷ subscripted hs

module _ (x : RuleEnv) where
  open x use {list_elements, parse_handle}

  -- All handles of a list, where every one can be parsed.
  abbrev pub handles : List String → Option (List (ℤ × Option String))
  handles [] = some []
  handles (e ∷ es) = elim (parse_handle e) [
    | none ↦ none
    | some h ↦ elim (handles es) [ none ↦ none | some hs ↦ some (h ∷ hs) ]
  ]

  abbrev pub sorted :
      List ℤ
      → List (ℤ × String)
      → Option (List (ℤ × Option String))
      → Option (List ℤ × List (ℤ × String))
  sorted ids subs none = none
  sorted ids subs (some hs) = some (ids ++ plain hs, subs ++ subscripted hs)

  extract_loop-sorted :
      (es : List String) (ids : List ℤ) (subs : List (ℤ × String))
      → extract_loop x ids subs es ≡ sorted ids subs (handles es)
  unfolding extract_loop
  extract_loop-sorted [] ids subs = rw (append-nil, append-nil) refl
  extract_loop-sorted (e ∷ es) ids subs = by_handle (parse_handle e) (extract_loop-sorted es)
    where
      by_handle :
          (h : Option (ℤ × Option String))
          → ((ids : List ℤ) (subs : List (ℤ × String))
              → extract_loop x ids subs es ≡ sorted ids subs (handles es))
          → (elim h [
            | none ↦ none
            | some h ↦
                let (id, sub) = h in
                elim sub [
                  | none ↦ extract_loop x (ids ++ id ∷ []) subs es
                  | some key ↦ extract_loop x ids (subs ++ (id, key) ∷ []) es
                ]
          ])
            ≡ sorted ids subs (elim h [
              | none ↦ none
              | some h ↦ elim (handles es) [ none ↦ none | some hs ↦ some (h ∷ hs) ]
            ])
      by_handle none k = refl
      by_handle (some (id, none)) k = k (ids ++ id ∷ []) subs ∙ one (handles es)
        where
          one :
              (r : Option (List (ℤ × Option String)))
              → sorted (ids ++ id ∷ []) subs r
                ≡ sorted ids subs (elim r [ none ↦ none | some hs ↦ some ((id, none) ∷ hs) ])
          one none = refl
          one (some hs) = rw append_assoc refl
      by_handle (some (id, some key)) k = k ids (subs ++ (id, key) ∷ []) ∙ one (handles es)
        where
          one :
              (r : Option (List (ℤ × Option String)))
              → sorted ids (subs ++ (id, key) ∷ []) r
                ≡ sorted ids subs (elim r [ none ↦ none | some hs ↦ some ((id, some key) ∷ hs) ])
          one none = refl
          one (some hs) = rw append_assoc refl

  -- A list of fewer inputs than the maximum gives, where every one is a handle, the ids without and
  -- the ids with a subscript, each in the order of the list, and else an error; a longer one is an
  -- error.
  pub turbine_extract_ids-sorted :
      (list : String) (es : List String)
      → list_elements list ≡ some es
      → turbine_extract_ids x list
        ≡ done (if ltb (length es) max_inputs then sorted [] [] (handles es) else none)
  unfolding turbine_extract_ids
  turbine_extract_ids-sorted list es e =
      rw (e, turbine_extract_ids, extract_loop-sorted es [] []) refl
