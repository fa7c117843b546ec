-- ===== src/Transfer/Options/Lookup.antt =====
-- operations/transfer_options.py: looking a key up in settings laid over others.
use mathlib.Core.Path.{subst, ap₂}
use rclone_kit.Base.{
  String, true, false, Option, none, some, List, [], ◌∷◌, ◌≡◌, refl, ap, ◌∙◌, sym, All, str_eq,
  eq_iff, Bool-cases, inl, inr,
}
use rclone_kit.Transfer.Options.{ConfigValue, or_else, set_fields, config_get}

abbrev Items : Type 0
Items = List (String × Option ConfigValue)

-- The items of the one list, with values of the other where it has none.
abbrev pub overlay : Items → Items → Items
overlay [] ys = []
overlay (x ∷ xs) [] = x ∷ xs
overlay ((k, a) ∷ xs) ((_, b) ∷ ys) = (k, or_else a b) ∷ overlay xs ys

abbrev pub SameKeys : Items → Items → Type 0
SameKeys [] [] = Unit
SameKeys ((k, a) ∷ xs) ((l, b) ∷ ys) = (k ≡ l) × SameKeys xs ys
SameKeys [] (y ∷ ys) = ⊥
SameKeys (x ∷ xs) [] = ⊥

-- The key of no item.
abbrev Absent : String → Items → Type 0
Absent key = All (λ (x : String × Option ConfigValue). str_eq x.0 key ≡ false)

-- No key twice, and none of `config` either.
abbrev pub Fresh : Items → List (String × ConfigValue) → Type 0
Fresh [] config = Unit
Fresh ((k, a) ∷ xs) config = Absent k xs × (config_get k config ≡ none) × Fresh xs config

config_get-Absent :
    (key : String) (xs : Items) (config : List (String × ConfigValue))
    → Absent key xs
    → config_get key (set_fields xs config) ≡ config_get key config
config_get-Absent key [] config h = refl
config_get-Absent key ((k, none) ∷ xs) config h = config_get-Absent key xs config h.1
config_get-Absent key ((k, some v) ∷ xs) config h = rw h.0 (config_get-Absent key xs config h.1)

SameKeys-Absent : (key : String) (xs ys : Items) → SameKeys xs ys → Absent key xs → Absent key ys
SameKeys-Absent key [] [] s h = tt
SameKeys-Absent key ((k, a) ∷ xs) ((l, b) ∷ ys) s h =
    (subst (λ m. str_eq m key ≡ false) s.0 h.0, SameKeys-Absent key xs ys s.1 h.1)
SameKeys-Absent key [] (y ∷ ys) s h = absurd s
SameKeys-Absent key (x ∷ xs) [] s h = absurd s

overlay-Absent :
    (key : String) (xs ys : Items) → SameKeys xs ys → Absent key xs → Absent key (overlay xs ys)
overlay-Absent key [] [] s h = tt
overlay-Absent key ((k, a) ∷ xs) ((l, b) ∷ ys) s h = (h.0, overlay-Absent key xs ys s.1 h.1)
overlay-Absent key [] (y ∷ ys) s h = absurd s
overlay-Absent key (x ∷ xs) [] s h = absurd s

pub or_else-none {ℓ} : {A : Type ℓ} (x : Option A) → or_else x none ≡ x
or_else-none none = refl
or_else-none (some v) = refl

pub or_else_self {ℓ} : {A : Type ℓ} (x : Option A) → x ≡ or_else x x
or_else_self none = refl
or_else_self (some v) = refl

-- Where the key is that of the first item.
get_first :
    (key k : String) (a : Option ConfigValue) (xs : Items) (config : List (String × ConfigValue))
    → str_eq k key ≡ true
    → Absent key xs
    → config_get key (set_fields ((k, a) ∷ xs) config) ≡ or_else a (config_get key config)
get_first key k none xs config e h = config_get-Absent key xs config h
get_first key k (some v) xs config e h = rw e refl

get_later :
    (key k : String) (a : Option ConfigValue) (xs : Items) (config : List (String × ConfigValue))
    → str_eq k key ≡ false
    → config_get key (set_fields ((k, a) ∷ xs) config) ≡ config_get key (set_fields xs config)
get_later key k none xs config h = refl
get_later key k (some v) xs config h = rw h refl

or_else_swap :
    (a b c d : Option ConfigValue)
    → c ≡ none
    → or_else (or_else a b) (or_else c d) ≡ or_else (or_else a c) (or_else b d)
or_else_swap none b c d h = rw h refl
or_else_swap (some v) b c d h = refl

pub get-overlay :
    (key : String) (xs ys : Items) (cx cy cz : List (String × ConfigValue))
    → SameKeys xs ys
    → Fresh xs cx
    → config_get key cz ≡ or_else (config_get key cx) (config_get key cy)
    → config_get key (set_fields (overlay xs ys) cz)
      ≡ or_else (config_get key (set_fields xs cx)) (config_get key (set_fields ys cy))
get-overlay key [] [] cx cy cz s f h = h
get-overlay key [] (y ∷ ys) cx cy cz s f h = absurd s
get-overlay key (x ∷ xs) [] cx cy cz s f h = absurd s
get-overlay key ((k, a) ∷ xs) ((l, b) ∷ ys) cx cy cz s f h = elim (Bool-cases (str_eq k key)) [
  | inr other ↦
      get_later key k (or_else a b) (overlay xs ys) cz other
      ∙ get-overlay key xs ys cx cy cz s.1 f.2 h
      ∙ ap₂ or_else (sym (get_later key k a xs cx other))
          (sym (get_later key l b ys cy (subst (λ m. str_eq m key ≡ false) s.0 other)))
  | inl same ↦
      let here : k ≡ key = (eq_iff k key).0 same in
      let gone : Absent key xs = subst (λ m. Absent m xs) here f.0 in
      get_first key k (or_else a b) (overlay xs ys) cz same (overlay-Absent key xs ys s.1 gone)
      ∙ ap (or_else (or_else a b)) h
      ∙ or_else_swap a b (config_get key cx) (config_get key cy)
          (subst (λ m. config_get m cx ≡ none) here f.1)
      ∙ ap₂ or_else (sym (get_first key k a xs cx same gone)) (
          sym (
            get_first key l b ys cy (subst (λ m. str_eq m key ≡ true) s.0 same)
              (SameKeys-Absent key xs ys s.1 gone)))
]
