-- ===== src/Db/Upserts.antt =====
-- The laws of the upsert, and that re-running a write of db.py changes nothing.
use augury.Prelude.{
  ◌≡◌, refl, ap, Option, none, some, List, [], ◌∷◌, if◌then◌else◌, arith, Bool-cases, All, map, inl,
  inr, ◌∙◌,
}
use augury.Prelude.Keys.{Key, ◌==◌, ==_refl}
use augury.Db.Table.{find_row, upsert, upsert_all}

module _ {K R : Type 0} ⦃k : Key K⦄ (key : R → K) where
  -- the row that an upsert leaves under its key
  abbrev pub merged : (R → R → R) → R → Option R → R
  merged merge r none = r
  merged merge r (some old) = merge old r

  -- no key stands twice
  abbrev pub IsKeyed : List R → Type 0
  IsKeyed [] = Unit
  IsKeyed (r ∷ rs) = (find_row key (key r) rs ≡ none) × IsKeyed rs

  module _ (merge : R → R → R)
      (keeps_key : (old new : R) → key old ≡ key new → key (merge old new) ≡ key new) where
    pub find_row-upsert :
        (r : R) (j : K) (table : List R)
        → find_row key j (upsert key merge r table) ≡ (
            if key r == j
            then some (merged merge r (find_row key (key r) table))
            else find_row key j table)
    unfolding upsert
    find_row-upsert r j [] = refl
    find_row-upsert r j (q ∷ qs) = ground (
      arith,
      find_row-upsert r j qs,
      keeps_key q r,
      k.beq_iff (key q) (key r),
      k.beq_iff (key (merge q r)) j,
      k.beq_iff (key r) j,
      k.beq_iff (key q) j,
    )

    upsert-IsKeyed : (r : R) (table : List R) → IsKeyed table → IsKeyed (upsert key merge r table)
    unfolding upsert
    upsert-IsKeyed r [] h = (refl, tt)
    upsert-IsKeyed r (q ∷ qs) h = elim (Bool-cases (key q == key r)) [
      | inl e ↦
          let same = keeps_key q r ((k.beq_iff (key q) (key r)).0 e) in
          let there = (k.beq_iff (key q) (key r)).0 e in rw e (rw (same, ← there) h.0, h.1)
      | inr e ↦ rw e (
        rw (find_row-upsert r (key q) qs)
            (ground (arith, k.beq_iff (key r) (key q), k.beq_iff (key q) (key r))),
        upsert-IsKeyed r qs h.1,
      )
    ]

    -- A write never makes two rows of one key.
    pub upsert_all-IsKeyed :
        (rows table : List R) → IsKeyed table → IsKeyed (upsert_all key merge rows table)
    unfolding upsert_all
    upsert_all-IsKeyed [] table h = h
    upsert_all-IsKeyed (r ∷ rs) table h =
        upsert_all-IsKeyed rs (upsert key merge r table) (upsert-IsKeyed r table h)

    -- what a batch of upserts leaves under a key, from what was there
    unfoldable pub overlay : K → List R → Option R → Option R
    overlay j [] o = o
    overlay j (r ∷ rs) o = overlay j rs (if key r == j then some (merged merge r o) else o)

    pub find_row-upsert_all :
        (j : K) (rows table : List R)
        → find_row key j (upsert_all key merge rows table) ≡ overlay j rows (find_row key j table)
    unfolding upsert_all overlay
    find_row-upsert_all j [] table = refl
    find_row-upsert_all j (r ∷ rs) table =
        find_row-upsert_all j rs (upsert key merge r table)
        ∙ ap (overlay j rs) (elim (Bool-cases (key r == j)) [
          | inl e ↦ rw (find_row-upsert r j table, e) (rw ((k.beq_iff (key r) j).0 e) refl)
          | inr e ↦ rw (find_row-upsert r j table, e) refl
        ])

  abbrev pub IsPresent : List R → R → Type 0
  IsPresent table r = (old : R) × (find_row key (key r) table ≡ some old)

  module _ (merge : R → R → R)
      (keeps_key : (old new : R) → key old ≡ key new → key (merge old new) ≡ key new) where
    upsert-IsPresent :
        (q r : R) (table : List R) → IsPresent table r → IsPresent (upsert key merge q table) r
    upsert-IsPresent q r table (old, h) = elim (Bool-cases (key q == key r)) [
      | inl e ↦ (
        merged merge q (find_row key (key q) table),
        rw (find_row-upsert merge keeps_key q (key r) table, e) refl,
      )
      | inr e ↦ (old, rw (find_row-upsert merge keeps_key q (key r) table, e) h)
    ]

    upsert-IsPresent_self : (r : R) (table : List R) → IsPresent (upsert key merge r table) r
    upsert-IsPresent_self r table = (
      merged merge r (find_row key (key r) table),
      rw (find_row-upsert merge keeps_key r (key r) table, ==_refl (key r)) refl,
    )

    upsert_all-IsPresent :
        (rows : List R) (r : R) (table : List R)
        → IsPresent table r
        → IsPresent (upsert_all key merge rows table) r
    unfolding upsert_all
    upsert_all-IsPresent [] r table h = h
    upsert_all-IsPresent (q ∷ qs) r table h =
        upsert_all-IsPresent qs r (upsert key merge q table) (upsert-IsPresent q r table h)

    pub upsert_all-All-IsPresent :
        (rows table : List R) → All (IsPresent (upsert_all key merge rows table)) rows
    unfolding upsert_all
    upsert_all-All-IsPresent [] table = tt
    upsert_all-All-IsPresent (r ∷ rs) table = (
      upsert_all-IsPresent rs r (upsert key merge r table) (upsert-IsPresent_self r table),
      upsert_all-All-IsPresent rs (upsert key merge r table),
    )

    -- Two rows that merge alike replace a row that is there alike.
    upsert-alike :
        (r s : R) (table : List R)
        → key r ≡ key s
        → ((o : R) → merge o r ≡ merge o s)
        → IsPresent table r
        → upsert key merge r table ≡ upsert key merge s table
    unfolding upsert
    upsert-alike r s [] same alike (old, h) = cc
    upsert-alike r s (q ∷ qs) same alike (old, h) = elim (Bool-cases (key q == key r)) [
      | inl e ↦ rw (← same, e) (rw (alike q))
      | inr e ↦ rw (← same, e) (ap (◌∷◌ q) (upsert-alike r s qs same alike (old, ground arith)))
    ]

    pub upsert_all-alike :
        {S : Type 0} (f g : S → R)
        → ((s : S) → key (f s) ≡ key (g s))
        → ((s : S) (o : R) → merge o (f s) ≡ merge o (g s))
        → (rows : List S) (table : List R) → All (IsPresent table) (map f rows)
        → upsert_all key merge (map f rows) table ≡ upsert_all key merge (map g rows) table
    unfolding upsert_all
    upsert_all-alike f g same alike [] table h = refl
    upsert_all-alike {S} f g same alike (s ∷ ss) table (there, rest) =
        upsert_all-alike f g same alike ss (upsert key merge (f s) table) (keep_present ss rest)
        ∙ ap (upsert_all key merge (map g ss))
            (upsert-alike (f s) (g s) table (same s) (alike s) there)
      where
        keep_present :
            (ss : List S)
            → All (IsPresent table) (map f ss)
            → All (IsPresent (upsert key merge (f s) table)) (map f ss)
        keep_present [] h = tt
        keep_present (x ∷ xs) (h, hs) = (upsert-IsPresent (f s) (f x) table h, keep_present xs hs)

  abbrev prefer : Option R → Option R → Option R
  prefer none o = o
  prefer (some l) o = some l

  -- the last row of a batch that has the key
  last_hit : K → List R → Option R
  last_hit j [] = none
  last_hit j (r ∷ rs) = prefer (last_hit j rs) (if key r == j then some r else none)

  -- A merge under which a later write of one row hides an earlier one, and a row merged into itself
  -- stays. Keeping the old row, taking the new one and a SET list of EXCLUDED columns are such.
  pub record IsOverwrite (merge : R → R → R) : Type 0 where
    pub keeps_key : (old new : R) → key old ≡ key new → key (merge old new) ≡ key new
    pub absorb : (old a b : R) → merge (merge old a) b ≡ merge old b
    pub idem : (r : R) → merge r r ≡ r

  module _ (merge : R → R → R) (over : IsOverwrite merge) where
    open over use {keeps_key, absorb, idem}

    abbrev after : R → Option R → Option R
    after x none = some x
    after x (some l) = some (merge x l)

    overlay-some :
        (j : K) (rows : List R) (x : R)
        → overlay merge keeps_key j rows (some x) ≡ after x (last_hit j rows)
    unfolding overlay last_hit
    overlay-some j [] x = refl
    overlay-some j (r ∷ rs) x = elim (Bool-cases (key r == j)) [
      | inl e ↦ rw (e, overlay-some j rs (merge x r)) (lem (last_hit j rs))
      | inr e ↦ rw (e, overlay-some j rs x) (same (last_hit j rs))
    ]
      where
        lem : (l : Option R) → after (merge x r) l ≡ after x (prefer l (some r))
        lem none = refl
        lem (some l) = rw (absorb x r l)

        same : (l : Option R) → after x l ≡ after x (prefer l none)
        same none = refl
        same (some l) = refl

    overlay-overlay :
        (j : K) (rows : List R) (o : Option R)
        → overlay merge keeps_key j rows (overlay merge keeps_key j rows o)
          ≡ overlay merge keeps_key j rows o
    unfolding overlay
    overlay-overlay j rows (some x) = rw (overlay-some j rows x) (lem (last_hit j rows) refl)
      where
        lem :
            (l : Option R)
            → last_hit j rows ≡ l
            → overlay merge keeps_key j rows (after x l) ≡ after x l
        lem none e = overlay-some j rows x ∙ ap (after x) e
        lem (some l) e =
            overlay-some j rows (merge x l) ∙ ap (after (merge x l)) e ∙ ap some (absorb x l l)
    overlay-overlay j [] none = refl
    overlay-overlay j (r ∷ rs) none = elim (Bool-cases (key r == j)) [
      | inl e ↦ rw (e, overlay-some j rs r) (lem (last_hit j rs) refl)
      | inr e ↦ rw e (overlay-overlay j rs none)
    ]
      where
        lem :
            (l : Option R)
            → last_hit j rs ≡ l
            → overlay merge keeps_key j rs (some (merged merge r (after r l))) ≡ after r l
        lem none e = overlay-some j rs (merge r r) ∙ ap (after (merge r r)) e ∙ ap some (idem r)
        lem (some l) e =
            overlay-some j rs (merge (merge r l) r)
            ∙ ap (after (merge (merge r l) r)) e
            ∙ ap some (absorb (merge r l) r l ∙ absorb r l l)

    -- Running a batch again leaves every key as the first run left it.
    pub upsert_all-rerun :
        (rows table : List R) (j : K)
        → let once = upsert_all key merge rows table in
          find_row key j (upsert_all key merge rows once) ≡ find_row key j once
    upsert_all-rerun rows table j =
        simp (find_row-upsert_all merge keeps_key) (overlay-overlay j rows (find_row key j table))
