-- ===== src/Factory/Registry.antt =====
-- What `get_object` finds after the static `add` objects have registered their constructors and `create`
-- has run them.
use Prim.Native.String.{String}
use text.Mathlib.TextEquality.{eq_iff}
use mathlib.Core.Bool.{false≢true}
use mathlib.Core.Option.{none-ne-some}
use logic.Base.{
  ◌≢◌, true, false, Option, none, some, List, [], ◌∷◌, ◌⊎◌, inl, inr, ◌≡◌, ◌↔◌, refl, sym, ap, ◌∙◌,
  Bool-cases, if◌then◌else◌,
}
use logic.Factory.{
  Factory, same_name, find, insert, missing, new_factory, add_object, add_unless, get_object,
  found_object, construct_all, create, destroy,
}

same_name_iff : (a b : String) → (same_name a b ≡ true) ↔ (a ≡ b)
unfolding same_name
same_name_iff a b = eq_iff a b

not_same : (a b : String) → a ≢ b → same_name a b ≡ false
not_same a b ne = elim (Bool-cases (same_name a b)) [
  | inl e ↦ absurd (ne ((same_name_iff a b).0 e))
  | inr e ↦ e
]

distinct : (a b : String) → same_name a b ≡ false → a ≢ b
distinct a b e same = false≢true (sym e ∙ (same_name_iff a b).1 same)

differ : (a b c : String) → same_name a b ≡ true → same_name c b ≡ false → same_name c a ≡ false
differ a b c e n = ap (same_name c) ((same_name_iff a b).0 e) ∙ n

module _ {ℓ} {A : Type ℓ} where
  -- Every name is there once.
  pub data IsMap : List (String × A) → Type ℓ where
    no_entry : IsMap []
    entry :
        {key : String} {item : A} {rest : List (String × A)}
        → find key rest ≡ none
        → IsMap rest
        → IsMap ((key, item) ∷ rest)

  find-insert :
      (name key : String) (item : A) (entries : List (String × A))
      → find name (insert key item entries)
        ≡ (if same_name name key then some item else find name entries)
  unfolding find insert
  find-insert name key item [] = refl
  find-insert name key item ((k, old) ∷ rest) = elim (Bool-cases (same_name key k)) [
    | inl e ↦ elim (Bool-cases (same_name name k)) [
      | inl n ↦ rw (e, n, ap (same_name name) ((same_name_iff key k).0 e) ∙ n) refl
      | inr n ↦ rw (e, n, differ key k name e n) refl
    ]
    | inr e ↦ elim (Bool-cases (same_name name k)) [
      | inl n ↦ rw (e, n, other key k name e n) refl
      | inr n ↦ rw (e, n) (find-insert name key item rest)
    ]
  ]
    where
      other :
          (a b c : String) → same_name a b ≡ false → same_name c b ≡ true → same_name c a ≡ false
      other a b c n e = not_same c a (λ same. distinct a b n (sym same ∙ (same_name_iff c b).0 e))

  insert-IsMap :
      (key : String) (item : A) (entries : List (String × A))
      → find key entries ≡ none
      → IsMap entries
      → IsMap (insert key item entries)
  unfolding insert find
  insert-IsMap key item [] free w = entry refl no_entry
  insert-IsMap key item ((k, old) ∷ rest) free (entry here w) =
      elim (Bool-cases (same_name key k)) [
        | inl e ↦ absurd (none-ne-some old (sym (rw e at free)))
        | inr e ↦ rw e (
            entry (find-insert k key item rest ∙ rw (swapped e) here)
              (insert-IsMap key item rest (rw e at free) w))
      ]
    where
      swapped : same_name key k ≡ false → same_name k key ≡ false
      swapped e = not_same k key (λ same. distinct key k e (sym same))

module _ {ℓ m} {C : Type ℓ} {O : Type m} where
  -- A constructor that is found, run; or what was there.
  abbrev run_or : (C → O) → Option C → Option O → Option O
  run_or construct none old = old
  run_or construct (some create_object) old = some (construct create_object)

  find-construct_all :
      (construct : C → O) (name : String) (constructors : List (String × C))
      (objects : List (String × O))
      → IsMap constructors
      → find name (construct_all construct constructors objects)
        ≡ run_or construct (find name constructors) (find name objects)
  unfolding find construct_all
  find-construct_all construct name [] objects w = refl
  find-construct_all construct name ((key, create_object) ∷ rest) objects (entry once w) =
      find-construct_all construct name rest (insert key (construct create_object) objects) w
      ∙ ap (run_or construct (find name rest))
          (find-insert name key (construct create_object) objects)
      ∙ elim (Bool-cases (same_name name key)) [
        | inl e ↦ rw (e, ap (λ k. find k rest) ((same_name_iff name key).0 e) ∙ once) refl
        | inr e ↦ rw e refl
      ]

  and_add : String → C → String ⊎ Factory C O → String ⊎ Factory C O
  and_add name create_object (inl error) = inl error
  and_add name create_object (inr f) = add_object name create_object f

  -- The registrations of a program, the last one first.
  pub add_all : List (String × C) → String ⊎ Factory C O
  add_all [] = inr new_factory
  add_all ((name, create_object) ∷ earlier) = and_add name create_object (add_all earlier)

  -- What a name is answered with.
  abbrev pub answer : (C → O) → String → Option C → String ⊎ O
  answer construct name none = inl (missing name)
  answer construct name (some create_object) = inr (construct create_object)

record Added {ℓ m} {C : Type ℓ} (O : Type m) (registered : List (String × C)) : Type (ℓ ⊔ m) where
  f : Factory C O
  added : add_all registered ≡ inr f
  constructors : IsMap f.m_constructors
  finds : (name : String) → find name f.m_constructors ≡ find name registered
  objects : f.m_objects ≡ []

module _ {ℓ m} {C : Type ℓ} {O : Type m} where
  add_all-Added : (registered : List (String × C)) → IsMap registered → Added O registered
  unfolding find add_all and_add add_object add_unless
  add_all-Added [] w = record {
    f = new_factory;
    added = refl;
    constructors = no_entry;
    finds = λ name. refl;
    objects = refl;
  }
  add_all-Added ((key, create_object) ∷ earlier) (entry once w) =
      let before = add_all-Added earlier w in
      let free = before.finds key ∙ once in
      record {
        f = record before.f { m_constructors = insert key create_object before.f.m_constructors };
        added = rw (before.added, free) refl;
        constructors =
            insert-IsMap key create_object before.f.m_constructors free before.constructors;
        finds = λ name.
            find-insert name key create_object before.f.m_constructors
            ∙ rw (before.finds name) refl;
        objects = before.objects;
      }

  -- When no two registrations of the factory have the same name, all are accepted, and after
  -- `create` the factory answers a name with the object that its constructor makes, or with the
  -- error that there is none for a name without a registration; after `destroy` every name is
  -- missing.
  pub registered_objects :
      (construct : C → O) (name : String) (registered : List (String × C))
      → IsMap registered
      → (f : Factory C O) × (add_all registered ≡ inr f)
        × (get_object name (create construct f) ≡ answer construct name (find name registered))
        × (get_object name (destroy (create construct f)) ≡ inl (missing name))
  unfolding get_object found_object create destroy find
  registered_objects construct name registered w =
      let a = add_all-Added registered w in
      (
        a.f,
        a.added,
        rw
            (
              find-construct_all construct name a.f.m_constructors a.f.m_objects a.constructors,
              a.finds name,
              a.objects,
            )
            (answered (find name registered)),
        refl,
      )
    where
      answered :
          (found : Option C)
          → found_object (run_or construct found none) name ≡ answer construct name found
      answered none = refl
      answered (some create_object) = refl
