-- ===== src/Json/ReadBack.antt =====
-- What the setters of models, macros in SDNSDK/JSONModels/MXJSONModel.h, read of models that were
-- written to JSON, and what holds of the models that they read.
use sendingnetwork_ios.Common.{◌≡◌, refl, ap, ◌∙◌, Option, none, some, List, [], ◌∷◌, All}
use sendingnetwork_ios.Common.Dict.{Dict}
use sendingnetwork_ios.Json.{
  Json, null, text, number, array, dictionary, entries, elements, entries-fields, elements-items,
}
use sendingnetwork_ios.Json.Setters.{
  Outcome, raised, returned, ◌>>=◌, set_model, set_models, models_from_json, add_model, perhaps,
}
use sendingnetwork_ios.Json.Writers.{as_model, models_json, as_array}

-- A predicate of a model that may be nil.
abbrev pub IfThere {ℓ} : {A : Type ℓ} → (A → Type 0) → Option A → Type 0
IfThere P none = Unit
IfThere P (some a) = P a

-- A list of models bs it is read: nil, or at least one model.
abbrev pub AreThere {ℓ} : {A : Type ℓ} → (A → Type 0) → Option (List A) → Type 0
AreThere P none = Unit
AreThere P (some []) = ⊥
AreThere P (some (a ∷ bs)) = P a × All P bs

-- A predicate of what a call returns, if it returns.
abbrev pub Returns {ℓ} : {A : Type ℓ} → (A → Type 0) → Outcome A → Type 0
Returns P raised = Unit
Returns P (returned a) = P a

pub Returns->>= {ℓ κ} :
    {A : Type ℓ} {B : Type κ} (P : A → Type 0) (Q : B → Type 0) (m : Outcome A) (f : A → Outcome B)
    → Returns P m
    → ((a : A) → P a → Returns Q (f a))
    → Returns Q (m >>= f)
Returns->>= P Q raised f h k = tt
Returns->>= P Q (returned a) f h k = k a h

module _ {A : Type 0} (model : Dict Json → Outcome (Option A)) (json : A → Dict Json)
    (P : A → Type 0) (back : (a : A) → P a → model (json a) ≡ returned (some a)) where
  pub model_back :
      (o : Option A) → IfThere P o → set_model none model (as_model json o) ≡ returned o
  unfolding set_model
  model_back none h = refl
  model_back (some a) h = rw (entries-fields (json a)) (back a h)

  abbrev unless_empty : List A → Option (List A)
  unless_empty [] = none
  unless_empty (a ∷ bs) = some (a ∷ bs)

  added : (a : A) (bs : List A) → add_model (some a) (unless_empty bs) ≡ some (a ∷ bs)
  added a [] = refl
  added a (b ∷ bs) = refl

  pub models_back :
      (bs : List A)
      → All P bs
      → models_from_json model (models_json json bs) ≡ returned (unless_empty bs)
  unfolding models_from_json
  models_back [] h = refl
  models_back (a ∷ bs) h =
      rw (entries-fields (json a), back a h.0, models_back bs h.1) (ap returned (added a bs))

  pub model_list_back :
      (a : A) (bs : List A)
      → All P (a ∷ bs)
      → set_models none model (as_array (some (models_json json (a ∷ bs))))
        ≡ returned (some (a ∷ bs))
  unfolding set_models as_array
  model_list_back a bs h =
      ap (models_from_json model) (elements-items (models_json json (a ∷ bs)))
      ∙ models_back (a ∷ bs) h

add_model-AreThere {ℓ} :
    {A : Type ℓ} (P : A → Type 0) (o : Option A) (models : Option (List A))
    → IfThere P o
    → AreThere P models
    → AreThere P (add_model o models)
add_model-AreThere P none models h hs = hs
add_model-AreThere P (some a) none h hs = (h, tt)
add_model-AreThere P (some a) (some []) h hs = absurd hs
add_model-AreThere P (some a) (some (b ∷ bs)) h hs = (h, hs)

models_from_json-AreThere {ℓ} :
    {A : Type ℓ} (P : A → Type 0) (model : Dict Json → Option A)
    → ((d : Dict Json) → IfThere P (model d))
    → (xs : List Json) → Returns (AreThere P) (models_from_json (perhaps model) xs)
unfolding models_from_json
models_from_json-AreThere P model h [] = tt
models_from_json-AreThere P model h (dictionary f ∷ xs) =
    Returns->>= (AreThere P) (AreThere P) (models_from_json (perhaps model) xs)
      (λ models. returned (add_model (model (entries f)) models))
      (models_from_json-AreThere P model h xs)
      (λ models there. add_model-AreThere P (model (entries f)) models (h (entries f)) there)
models_from_json-AreThere P model h (null ∷ xs) = tt
models_from_json-AreThere P model h (text s ∷ xs) = tt
models_from_json-AreThere P model h (number n ∷ xs) = tt
models_from_json-AreThere P model h (array ys ∷ xs) = tt

pub set_models-AreThere {ℓ} :
    {A : Type ℓ} (P : A → Type 0) (model : Dict Json → Option A)
    → ((d : Dict Json) → IfThere P (model d))
    → (o : Option Json) → Returns (AreThere P) (set_models none (perhaps model) o)
unfolding set_models
set_models-AreThere P model h none = tt
set_models-AreThere P model h (some null) = tt
set_models-AreThere P model h (some (text s)) = tt
set_models-AreThere P model h (some (number n)) = tt
set_models-AreThere P model h (some (array xs)) = models_from_json-AreThere P model h (elements xs)
set_models-AreThere P model h (some (dictionary f)) = tt

pub set_model-IfThere {ℓ} :
    {A : Type ℓ} (P : A → Type 0) (model : Dict Json → Outcome (Option A))
    → ((d : Dict Json) → Returns (IfThere P) (model d))
    → (o : Option Json) → Returns (IfThere P) (set_model none model o)
unfolding set_model
set_model-IfThere P model h none = tt
set_model-IfThere P model h (some null) = tt
set_model-IfThere P model h (some (text s)) = tt
set_model-IfThere P model h (some (number n)) = tt
set_model-IfThere P model h (some (array xs)) = tt
set_model-IfThere P model h (some (dictionary f)) = h (entries f)
