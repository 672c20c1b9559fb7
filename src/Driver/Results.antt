-- ===== src/Driver/Results.antt =====
-- What getResults of backend/driver/driver.go retrieves, against a list of candidates.
use fms_lm_eval_service.Prelude.{
  String, ◌==◌, Bool, not, ◌&&◌, ◌||◌, Option, none, some, List, [], ◌∷◌, ◌++◌, if◌then◌else◌, ◌≡◌,
  refl, ◌∙◌, ap, Bool-cases, Option-cases, inl, inr,
}
use fms_lm_eval_service.Api.Core.{Error, Result, ok, err, Result-cases}
use fms_lm_eval_service.Driver.Connect.{DriverOption}
use fms_lm_eval_service.Driver.Run.{Host, Visit, visited, walk, get_results}

-- The last element, or another value for an empty list.
abbrev pub last_or {ℓ} : {A : Type ℓ} → A → List A → A
last_or x [] = x
last_or x (y ∷ ys) = last_or y ys

abbrev pub first_error : List Visit → Option Error
first_error [] = none
first_error (visit ∷ visits) = elim visit.error [ some e ↦ some e | none ↦ first_error visits ]

-- The first error if there is one, or the results.
abbrev pub retrieved : Option Error → String → Result String
retrieved (some e) results = err e
retrieved none results = ok results

abbrev text_of : Result String → List String
text_of (ok bytes) = bytes ∷ []
text_of (err _) = []

module _ (H : Host) (files : H.Files) (root : String) where
  -- Whether an entry may be a file of results: the pattern matches, and it is no directory below
  -- the root.
  abbrev pub is_candidate : Visit → Bool
  is_candidate visit =
      H.matches (H.join root "result*.json") visit.path && (visit.path == root || not visit.is_dir)

  -- The texts of the candidates that can be read.
  abbrev pub candidates : List Visit → List String
  candidates [] = []
  candidates (visit ∷ visits) =
      (if is_candidate visit then text_of (H.read_file files visit.path) else [])
      ++ candidates visits

  last_or-visited :
      (visit : Visit) (results : String) (later : List String)
      → last_or (visited H files root visit results) later
        ≡ last_or results
            ((if is_candidate visit then text_of (H.read_file files visit.path) else []) ++ later)
  last_or-visited visit results later = elim (Bool-cases (visit.path == root)) [
    | inl a ↦ elim (Bool-cases (H.matches (H.join root "result*.json") visit.path)) [
      | inl m ↦ elim (Result-cases (H.read_file files visit.path)) [
        | inl (bytes, r) ↦ rw (a, m, r)
        | inr (e, r) ↦ rw (a, m, r)
      ]
      | inr m ↦ rw (a, m)
    ]
    | inr a ↦ elim (Bool-cases visit.is_dir) [
      | inl d ↦ elim (Bool-cases (H.matches (H.join root "result*.json") visit.path)) [
        | inl m ↦ rw (a, d, m)
        | inr m ↦ rw (a, d, m)
      ]
      | inr d ↦ elim (Bool-cases (H.matches (H.join root "result*.json") visit.path)) [
        | inl m ↦ elim (Result-cases (H.read_file files visit.path)) [
          | inl (bytes, r) ↦ rw (a, d, m, r)
          | inr (e, r) ↦ rw (a, d, m, r)
        ]
        | inr m ↦ rw (a, d, m)
      ]
    ]
  ]

  walk-last :
      (visits : List Visit) (results : String)
      → walk H files root visits results
        ≡ retrieved (first_error visits) (last_or results (candidates visits))
  walk-last [] results = refl
  walk-last (visit ∷ visits) results = elim (Option-cases visit.error) [
    | inl n ↦ rw n (
        walk-last visits (visited H files root visit results)
        ∙ ap (retrieved (first_error visits)) (last_or-visited visit results (candidates visits)))
    | inr (e, s) ↦ rw s
  ]

-- The driver retrieves the text of the last file of the output directory that has the name of a
-- results file and can be read, "" if there is none; if the walk meets an error, it gives the
-- first one instead.
pub get_results-last :
    (H : Host) (option : DriverOption) (files : H.Files)
    → get_results H option files
      ≡ retrieved
          (first_error (H.visits files option.output_path))
          (last_or "" (candidates H files option.output_path (H.visits files option.output_path)))
unfolding get_results
get_results-last H option files =
    walk-last H files option.output_path (H.visits files option.output_path) ""
