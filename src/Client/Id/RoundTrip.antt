-- ===== src/Client/Id/RoundTrip.antt =====
-- What reading a workflow's identifier back gives.
use temporal_auto_scaled_wor.Prelude.{
  ℕ, Bool, false, true, List, [], ◌∷◌, ◌++◌, ◌==◌, if◌then◌else◌, ◌≡◌, refl, ap, ◌∙◌, sym, subst,
  any, false≢true, ◌||◌, ◌↔◌, Bool-cases, inl, inr,
}
use temporal_auto_scaled_wor.Client.Id.{
  Str, delimiter, workflow_id_prefix, generate_workflow_id, split, push_first, version_of_parts,
  version_of_workflow_id,
}

abbrev pub has : ℕ → Str → Bool
has d s = any (λ c. c == d) s

-- A string without the separator.
abbrev pub IsFree : ℕ → Str → Type 0
IsFree d s = has d s ≡ false

or_false : (a b : Bool) → (a || b) ≡ false → (a ≡ false) × (b ≡ false)
or_false true b h = (h, absurd (false≢true (sym h)))
or_false false b h = (refl, h)

-- A string up to its first delimiter.
abbrev pub before : ℕ → Str → Str
before d [] = []
before d (c ∷ cs) = let rest = before d cs in if c == d then [] else c ∷ rest

split-append :
    (d : ℕ) (xs ys : Str)
    → (d == d) ≡ true
    → IsFree d xs
    → split d (xs ++ (d ∷ ys)) ≡ xs ∷ split d ys
unfolding split
split-append d [] ys hd h = rw (hd)
split-append d (x ∷ xs) ys hd h =
    let fs = or_false (x == d) (has d xs) h in rw (fs.0, split-append d xs ys hd fs.1)

-- The parts after the first one.
later_parts : ℕ → Str → List Str
unfolding split
later_parts d [] = []
later_parts d (c ∷ cs) = let rest = later_parts d cs in if c == d then split d cs else rest

push_before :
    (b : Bool) (c : ℕ) (s : Str) (r ps : List Str)
    → r ≡ s ∷ ps
    → (if b then [] ∷ r else push_first c r) ≡ (if b then [] else c ∷ s) ∷ (if b then r else ps)
push_before true c s r ps h = refl
push_before false c s r ps h = ap (push_first c) h

split-before : (d : ℕ) (s : Str) → split d s ≡ before d s ∷ later_parts d s
unfolding split later_parts
split-before d [] = refl
split-before d (c ∷ cs) =
    push_before (c == d) c (before d cs) (split d cs) (later_parts d cs) (split-before d cs)

before-free : (d : ℕ) (s : Str) → IsFree d s → before d s ≡ s
before-free d [] h = refl
before-free d (c ∷ cs) h =
    let fs = or_false (c == d) (has d cs) h in rw (fs.0, before-free d cs fs.1)

split-workflow_id :
    (name build : Str)
    → IsFree delimiter name
    → split delimiter (generate_workflow_id (record { deployment_name = name; build_id = build }))
      ≡ workflow_id_prefix ∷ (name ∷ (before delimiter build ∷ later_parts delimiter build))
unfolding generate_workflow_id workflow_id_prefix
split-workflow_id name build h =
    split-append delimiter workflow_id_prefix (name ++ (delimiter ∷ build)) refl refl
    ∙ ap (λ r. workflow_id_prefix ∷ r)
        (split-append delimiter name build refl h
          ∙ ap (λ r. name ∷ r) (split-before delimiter build))

-- What is read back from the identifier that an instance gets, when its deployment's name has no
-- delimiter: the name, and the build's identifier up to its first delimiter.
version_of_workflow_id-generate_workflow_id :
    (name build : Str)
    → IsFree delimiter name
    → version_of_workflow_id
        (generate_workflow_id (record { deployment_name = name; build_id = build }))
      ≡ record { deployment_name = name; build_id = before delimiter build }
unfolding version_of_workflow_id
version_of_workflow_id-generate_workflow_id name build h =
    ap version_of_parts (split-workflow_id name build h)

before-IsFree : (d : ℕ) (s : Str) → IsFree d (before d s)
before-IsFree d [] = refl
before-IsFree d (c ∷ cs) = elim (Bool-cases (c == d)) [
  | inl e ↦ rw (e)
  | inr e ↦ rw (e, before-IsFree d cs, e)
]

-- An instance whose deployment's name has no delimiter: reading its workflow's identifier gives
-- its name and its build's identifier exactly when the build's identifier has no delimiter.
pub version_of_workflow_id-generate_workflow_id_iff :
    (name build : Str)
    → IsFree delimiter name
    → (version_of_workflow_id
          (generate_workflow_id (record { deployment_name = name; build_id = build }))
        ≡ record { deployment_name = name; build_id = build })
      ↔ IsFree delimiter build
version_of_workflow_id-generate_workflow_id_iff name build h =
    let read = version_of_workflow_id-generate_workflow_id name build h in
    (
      (λ e.
          subst (IsFree delimiter) (ap (λ v. v.build_id) (sym read ∙ e))
            (before-IsFree delimiter build)),
      (λ free.
          read
          ∙ ap (λ b. record { deployment_name = name; build_id = b })
              (before-free delimiter build free)),
    )
