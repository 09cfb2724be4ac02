-- ===== src/GuacWeb/Columns.antt =====
-- The scan of one row in `flush_delta` of src/guac_web.cpp.
use tunnel_proxy.Base.{
  ℕ, zero, suc, ◌+◌, ◌*◌, ◌/◌, ◌%◌, ◌≤◌, ◌<◌, ◌≡◌, ◌≢◌, ◌⊎◌, refl, sym, ap, subst, ◌∙◌, inl, inr,
  Bool, true, false, Option, none, some, arith, leb, ◌==◌, ==_iff, Bool-cases, get_or, Bytes,
}
use tunnel_proxy.GuacWeb.Delta.{same_bytes, pixel_differs, Scan, widen, scan_cols}

module _ (prev curr : Bytes) where
  abbrev byte_same : ℕ → Bool
  byte_same k = get_or prev k 0 == get_or curr k 0

  -- The pixel changed, in the row that starts at `start`.
  abbrev pub ChangedAt : ℕ → ℕ → Type 0
  ChangedAt start q = pixel_differs prev curr (start + q * 3) ≡ true

  same_bytes-true :
      (from n k : ℕ) → same_bytes prev curr from n ≡ true → k < n → byte_same (from + k) ≡ true
  unfolding same_bytes
  same_bytes-true from zero k h l = absurd (omega arith)
  same_bytes-true from (suc n) zero h l =
      let first : byte_same from ≡ true = ground arith in ap byte_same (omega arith) ∙ first
  same_bytes-true from (suc n) (suc k) h l =
      let others : same_bytes prev curr (from + 1) n ≡ true = ground arith in
      ap byte_same (omega arith) ∙ same_bytes-true (from + 1) n k others (omega arith)

  same_bytes-false :
      (from n : ℕ)
      → same_bytes prev curr from n ≡ false
      → (k : ℕ) × (k < n) × (byte_same (from + k) ≡ false)
  unfolding same_bytes
  same_bytes-false from zero h = absurd (ground arith)
  same_bytes-false from (suc n) h = elim (Bool-cases (byte_same from)) [
    | inl e ↦
        let others : same_bytes prev curr (from + 1) n ≡ false = ground arith in
        let (k, l, differs) = same_bytes-false (from + 1) n others in
        (suc k, omega arith, ap byte_same (omega arith) ∙ differs)
    | inr e ↦ (0, omega arith, ap byte_same (omega arith) ∙ e)
  ]

  differs_twice : {b : Bool} → b ≡ true → b ≢ false
  differs_twice h e = ground arith

  -- The scan of the columns from col on, of a row.
  pub record Cols (start col n : ℕ) (d d' : Scan) : Type 0 where
    pub rows : (d'.min_row ≡ d.min_row) × (d'.row_end ≡ d.row_end)
    pub left_grows : d'.min_col ≤ d.min_col
    pub right_grows : d.col_end ≤ d'.col_end
    pub covers :
        (q : ℕ) → col ≤ q → q < col + n → ChangedAt start q → (d'.min_col ≤ q) × (q < d'.col_end)
    pub left_hit : (d'.min_col ≡ d.min_col) ⊎ ((d'.min_col < col + n) × ChangedAt start d'.min_col)
    pub right_hit :
        (d'.col_end ≡ d.col_end)
        ⊎ ((q : ℕ) × (d'.col_end ≡ suc q) × (q < col + n) × ChangedAt start q)

  pub Cols-scan :
      (start col n : ℕ) (d : Scan) → Cols start col n d (scan_cols prev curr start col n d)
  unfolding scan_cols
  Cols-scan start col zero d = record {
    rows = (refl, refl);
    left_grows = omega arith;
    right_grows = omega arith;
    covers = λ q a b c. absurd (omega arith);
    left_hit = inl refl;
    right_hit = inl refl;
  }
  Cols-scan start col (suc n) d = elim (Bool-cases (pixel_differs prev curr (start + col * 3))) [
    | inl h ↦
        let r = Cols-scan start (col + 1) n (widen col d) in
        rw h (record {
          rows = r.rows;
          left_grows = ground (arith, r.left_grows);
          right_grows = ground (arith, r.right_grows);
          covers = λ q a b c. elim (Bool-cases (q == col)) [
            | inl here ↦
                let it_is : q ≡ col = (==_iff q col).0 here in
                ground (arith, r.left_grows, r.right_grows)
            | inr on ↦ r.covers q (ground arith) (omega arith) c
          ];
          left_hit = elim r.left_hit [
            | inl e ↦ elim (Bool-cases (leb d.min_col col)) [
              | inl old ↦ inl (e ∙ ground arith)
              | inr new ↦
                  let it_is : (scan_cols prev curr start (col + 1) n (widen col d)).min_col ≡ col =
                    e ∙ ground arith in
                  inr (omega arith, subst (ChangedAt start) (sym it_is) h)
            ]
            | inr (l, e) ↦ inr (omega arith, e)
          ];
          right_hit = elim r.right_hit [
            | inl e ↦ elim (Bool-cases (leb d.col_end (col + 1))) [
              | inl new ↦ inr (col, e ∙ ground arith, omega arith, h)
              | inr old ↦ inl (e ∙ ground arith)
            ]
            | inr (q, e, l, c) ↦ inr (q, e, omega arith, c)
          ];
        })
    | inr h ↦
        let r = Cols-scan start (col + 1) n d in
        rw h (record {
          rows = r.rows;
          left_grows = r.left_grows;
          right_grows = r.right_grows;
          covers = λ q a b c. elim (Bool-cases (q == col)) [
            | inl here ↦
                let it_is : q ≡ col = (==_iff q col).0 here in
                absurd (
                  differs_twice (ap (λ z. pixel_differs prev curr (start + z * 3)) (sym it_is) ∙ c)
                    h)
            | inr on ↦ r.covers q (ground arith) (omega arith) c
          ];
          left_hit = elim r.left_hit [ inl e ↦ inl e | inr (l, e) ↦ inr (omega arith, e) ];
          right_hit = elim r.right_hit [
            | inl e ↦ inl e
            | inr (q, e, l, c) ↦ inr (q, e, omega arith, c)
          ];
        })
  ]

  no_difference :
      (at : ℕ)
      → byte_same at ≡ true
      → byte_same (at + 1) ≡ true
      → byte_same (at + 2) ≡ true
      → pixel_differs prev curr at ≡ false
  no_difference at a b c = ground arith

  pixel_differs-byte :
      (at k : ℕ) → k < 3 → byte_same (at + k) ≡ false → pixel_differs prev curr at ≡ true
  pixel_differs-byte at zero l h =
      let e : byte_same at ≡ false = ap byte_same (omega arith) ∙ h in ground arith
  pixel_differs-byte at (suc zero) l h = let e : byte_same (at + 1) ≡ false = h in ground arith
  pixel_differs-byte at (suc (suc zero)) l h =
      let e : byte_same (at + 2) ≡ false = h in ground arith
  pixel_differs-byte at (suc (suc (suc k))) l h = absurd (omega arith)

  abbrev pub entered : ℕ → Option ℕ → Option ℕ
  entered row none = some row
  entered row (some m) = some m

  -- Some byte of a row differs exactly if some pixel does.
  pub same_row :
      (start w q : ℕ) → same_bytes prev curr start (w * 3) ≡ true → q < w → ¬ ChangedAt start q
  same_row start w q h l c =
      let a = same_bytes-true start (w * 3) (q * 3) h (omega arith) in
      let b : byte_same (start + q * 3 + 1) ≡ true =
        ap byte_same (omega arith) ∙ same_bytes-true start (w * 3) (q * 3 + 1) h (omega arith) in
      let e : byte_same (start + q * 3 + 2) ≡ true =
        ap byte_same (omega arith) ∙ same_bytes-true start (w * 3) (q * 3 + 2) h (omega arith) in
      differs_twice c (no_difference (start + q * 3) a b e)

  pub changed_row :
      (start w : ℕ)
      → same_bytes prev curr start (w * 3) ≡ false
      → (q : ℕ) × (q < w) × ChangedAt start q
  changed_row start w h =
      let (k, l, differs) = same_bytes-false start (w * 3) h in
      (
        k / 3,
        omega arith,
        pixel_differs-byte (start + k / 3 * 3) (k % 3) (omega arith)
            (ap byte_same (omega arith) ∙ differs),
      )
