-- ===== src/Users/Reseeding.antt =====
-- Why django_app/apps/users/management/commands/seed_roles.py may run again.
use text.Mathlib.Text.{◌==◌ as str_eq}
use text.Mathlib.TextEquality.{eq_iff}
use ecommerce.Prelude.{
  ℕ, suc, ◌<◌, ◌≡◌, refl, ◌∙◌, ◌⊎◌, inl, inr, Bool, true, false, none, String, List, [], ◌∷◌, ◌++◌,
  arith, filter_by, Bool-cases, All, All-map, All-append, filter_by-All, filter_by-keeps-All,
  &&-eq_true,
}
use ecommerce.Exec.{ok, bind_ok}
use ecommerce.Core.Models.{is_alive, save, lookup, Distinct, IsStored}
use ecommerce.Core.Models.Rows.{filter-IsStored, save-Distinct, append-Distinct, save-All}
use ecommerce.Users.{Role, role_model}
use ecommerce.Users.Seeding.{
  Seed, system_roles, has_code, lives_as, seed_role, reseeded, update_or_create, seed_all, handle,
}
use ecommerce.Core.Models.Filtering.{
  filter-append_no, filter-append_yes, any-filter_none, filter-save_no, filter-save_yes,
  save-stored,
}

-- No row has the code, or one living row.
abbrev pub IsSeedable : List Role → Seed → Type 0
IsSeedable t s =
    (filter_by (has_code s.code) t ≡ []) ⊎ ((r : Role) × (filter_by (lives_as s.code) t ≡ r ∷ []))

-- One living row has the code, and says what the entry says.
abbrev pub IsSeeded : List Role → Seed → Type 0
IsSeeded t s =
    (r : Role) × (filter_by (lives_as s.code) t ≡ r ∷ [])
    × ((r.name ≡ s.name) × (r.description ≡ s.description) × (r.is_system ≡ true))

-- The entries have different codes.
abbrev pub Differ : List Seed → Type 0
Differ [] = Unit
Differ (s ∷ rest) = All (λ s'. str_eq s.code s'.code ≡ false) rest × Differ rest

-- Rows of one code do not have another.
code_no :
    (c c' : String) (r : Role)
    → str_eq c c' ≡ false
    → str_eq r.code c ≡ true
    → str_eq r.code c' ≡ false
code_no c c' r h k = let e : r.code ≡ c = (eq_iff r.code c).0 k in rw e h

code_self : (c : String) → str_eq c c ≡ true
code_self c = (eq_iff c c).1 refl

record IsTable (n : ℕ) (t : List Role) : Type 0 where
  distinct : Distinct t
  below : All (λ (r : Role). r.id < n) t

fresh-none : (n : ℕ) (t : List Role) → All (λ (r : Role). r.id < n) t → lookup n t ≡ none
unfolding lookup
fresh-none n [] h = refl
fresh-none n (r ∷ t) h = ground (arith, fresh-none n t h.1)

-- What one entry does.
record Seeds (n : ℕ) (s : Seed) (t t' : List Role) : Type 0 where
  table : IsTable (suc n) t'
  seeded : IsSeeded t' s
  others_all :
      (c : String) → str_eq s.code c ≡ false → filter_by (has_code c) t' ≡ filter_by (has_code c) t
  others :
      (c : String) → str_eq s.code c ≡ false → filter_by (lives_as c) t' ≡ filter_by (lives_as c) t

lives-none :
    (c : String) (t : List Role) → filter_by (has_code c) t ≡ [] → filter_by (lives_as c) t ≡ []
lives-none c [] h = refl
lives-none c (r ∷ t) h = ground (arith, lives-none c t)

one_more :
    (n : ℕ) (t : List Role) → All (λ (r : Role). r.id < n) t → All (λ (r : Role). r.id < suc n) t
one_more n t h =
    All-map (λ (r : Role). r.id < n) (λ (r : Role). r.id < suc n) (λ r k. omega arith) t h

module _ (n : ℕ) (s : Seed) (t : List Role) (table : IsTable n t) where
  new-Seeds : filter_by (has_code s.code) t ≡ [] → Seeds n s t (t ++ seed_role n s ∷ [])
  new-Seeds empty = record {
    table = record {
      distinct = append-Distinct (seed_role n s) t table.distinct (fresh-none n t table.below);
      below =
          All-append (λ (r : Role). r.id < suc n) t (seed_role n s ∷ []) (one_more n t table.below)
            (omega arith, tt);
    };
    seeded = (
      seed_role n s,
      filter-append_yes (lives_as s.code) (seed_role n s) t (code_self s.code)
          (lives-none s.code t empty),
      (refl, refl, refl),
    );
    others_all = λ c h. filter-append_no (has_code c) (seed_role n s) t h;
    others = λ c h. filter-append_no (lives_as c) (seed_role n s) t h;
  }

  old-Seeds :
      (r : Role) → filter_by (lives_as s.code) t ≡ r ∷ [] → Seeds n s t (save (reseeded s r) t)
  old-Seeds r one =
      let p : Role → Bool = lives_as s.code in
      let stored : IsStored t r = (rw one at (filter-IsStored p t table.distinct)).0 in
      let fits : p r ≡ true = (rw one at (filter_by-All p t)).0 in
      let below : r.id < n =
        (rw one at (filter_by-keeps-All (λ (r : Role). r.id < n) p t table.below)).0 in
      let (lives, coded) = &&-eq_true (is_alive r) (str_eq r.code s.code) fits in
      record {
        table = record {
          distinct = save-Distinct (reseeded s r) t table.distinct;
          below =
              save-All (λ (r : Role). r.id < suc n) (reseeded s r) t (omega arith)
                (one_more n t table.below);
        };
        seeded = (
          reseeded s r,
          filter-save_yes p r (reseeded s r) t table.distinct stored refl fits fits one,
          (refl, refl, refl),
        );
        others_all = λ c h.
            let no = code_no s.code c r h coded in
            filter-save_no (has_code c) r (reseeded s r) t table.distinct stored refl no no;
        others = λ c h.
            let no : lives_as c r ≡ false = rw (lives, code_no s.code c r h coded) refl in
            filter-save_no (lives_as c) r (reseeded s r) t table.distinct stored refl no no;
      }

  update_or_create-Seeds :
      IsSeedable t s
      → (r : Role) × (t' : List Role) × (update_or_create n s t ≡ (ok r, t')) × Seeds n s t t'
  unfolding update_or_create
  update_or_create-Seeds (inl empty) = (
    seed_role n s,
    t ++ seed_role n s ∷ [],
    rw (lives-none s.code t empty, any-filter_none (has_code s.code) t empty) refl,
    new-Seeds empty,
  )
  update_or_create-Seeds (inr (r, one)) =
      (reseeded s r, save (reseeded s r) t, rw one refl, old-Seeds r one)

-- An entry that the table follows already changes nothing.
update_or_create-IsSeeded :
    (n : ℕ) (s : Seed) (t : List Role)
    → Distinct t
    → IsSeeded t s
    → (r : Role) × (update_or_create n s t ≡ (ok r, t))
unfolding update_or_create
update_or_create-IsSeeded n s t distinct (r, one, (a, b, c)) =
    let same : reseeded s r ≡ r = rw (← a, ← b, ← c) refl in
    let stored : IsStored t r = (rw one at (filter-IsStored (lives_as s.code) t distinct)).0 in
    (r, rw (one, same, save-stored r t distinct stored) refl)

seed_all-IsSeeded :
    (ss : List Seed) (n : ℕ) (t : List Role)
    → Distinct t
    → All (IsSeeded t) ss
    → seed_all n ss t ≡ (ok tt, t)
unfolding seed_all
seed_all-IsSeeded [] n t d h = refl
seed_all-IsSeeded (s ∷ ss) n t d h =
    let (r, e) = update_or_create-IsSeeded n s t d h.0 in
    bind_ok (update_or_create n s) (λ _. seed_all (suc n) ss) t t r e
    ∙ seed_all-IsSeeded ss (suc n) t d h.1

str_eq_flip : (a b : String) → str_eq a b ≡ false → str_eq b a ≡ false
str_eq_flip a b h = elim (Bool-cases (str_eq b a)) [
  | inl e ↦
      let q : b ≡ a = (eq_iff b a).0 e in
      absurd (let k = code_self a in let k' : str_eq a b ≡ true = rw q k in ground arith)
  | inr e ↦ e
]

still-IsSeedable :
    (n : ℕ) (s : Seed) (t t' : List Role) (ss : List Seed)
    → Seeds n s t t'
    → All (λ (s' : Seed). str_eq s.code s'.code ≡ false) ss
    → All (IsSeedable t) ss
    → All (IsSeedable t') ss
still-IsSeedable n s t t' [] d h k = tt
still-IsSeedable n s t t' (s' ∷ ss) d h ((inl e), k) =
    (inl (d.others_all s'.code h.0 ∙ e), still-IsSeedable n s t t' ss d h.1 k)
still-IsSeedable n s t t' (s' ∷ ss) d h ((inr (r, e)), k) =
    (inr (r, d.others s'.code h.0 ∙ e), still-IsSeedable n s t t' ss d h.1 k)

record Seeded (ss : List Seed) (t t' : List Role) : Type 0 where
  distinct : Distinct t'
  follows : All (IsSeeded t') ss
  others :
      (c : String)
      → All (λ (s : Seed). str_eq s.code c ≡ false) ss
      → filter_by (lives_as c) t' ≡ filter_by (lives_as c) t

seed_all-Seeded :
    (ss : List Seed) (n : ℕ) (t : List Role)
    → IsTable n t
    → Differ ss
    → All (IsSeedable t) ss
    → (t' : List Role) × (seed_all n ss t ≡ (ok tt, t')) × Seeded ss t t'
unfolding seed_all
seed_all-Seeded [] n t table differ seedable =
    (t, refl, record { distinct = table.distinct; follows = tt; others = λ c h. refl })
seed_all-Seeded (s ∷ ss) n t table differ seedable =
    let (r, t1, first, d) = update_or_create-Seeds n s t table seedable.0 in
    let (t', later, k) =
      seed_all-Seeded ss (suc n) t1 d.table differ.1
        (still-IsSeedable n s t t1 ss d differ.0 seedable.1) in
    let flipped : All (λ (s' : Seed). str_eq s'.code s.code ≡ false) ss =
      All-map (λ (s' : Seed). str_eq s.code s'.code ≡ false)
        (λ (s' : Seed). str_eq s'.code s.code ≡ false) (λ s' e. str_eq_flip s.code s'.code e) ss
        differ.0 in
    let (x, one, says) = d.seeded in
    (
      t',
      bind_ok (update_or_create n s) (λ _. seed_all (suc n) ss) t t1 r first ∙ later,
      record {
        distinct = k.distinct;
        follows = ((x, k.others s.code flipped ∙ one, says), k.follows);
        others = λ c h. k.others c h.1 ∙ d.others c h.0;
      },
    )

system_roles-Differ : Differ system_roles
system_roles-Differ = (
  (refl, (refl, (refl, (refl, tt)))),
  ((refl, (refl, (refl, tt))), ((refl, (refl, tt)), ((refl, tt), (tt, tt)))),
)

-- No key is used twice and the keys from `n` on are free; each code of the system has no row, or one
-- row that lives. The command returns; each role of the system then has one living row, with its name
-- and description and marked as the system's. When the command runs again, it returns and changes
-- nothing.
pub handle-handle :
    (n m : ℕ) (t : List Role)
    → Distinct t
    → All (λ (r : Role). r.id < n) t
    → All (IsSeedable t) system_roles
    → (t' : List Role) × (handle n t ≡ (ok tt, t'))
      × All (IsSeeded t') system_roles
      × (handle m t' ≡ (ok tt, t'))
unfolding handle
handle-handle n m t distinct below seedable =
    let (t', e, k) =
      seed_all-Seeded system_roles n t (record { distinct = distinct; below = below })
        system_roles-Differ seedable in
    (t', e, k.follows, seed_all-IsSeeded system_roles m t' k.distinct k.follows)
