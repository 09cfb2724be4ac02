-- ===== src/GuacWeb/Rect.antt =====
-- The bounding rectangle that `flush_delta` of src/guac_web.cpp computes.
use tunnel_proxy.Base.{
  ℕ, zero, suc, ◌+◌, ◌-◌, ◌*◌, ◌≤◌, ◌<◌, ◌≡◌, ◌⊎◌, refl, sym, ap, subst, ◌∙◌, inl, inr, true, false,
  Option, none, some, arith, ◌==◌, ==_iff, Bool-cases, Bytes,
}
use tunnel_proxy.GuacWeb.Delta.{same_bytes, Scan, enter_row, scan_rows, Rect, rect_of, dirty_rect}
use tunnel_proxy.GuacWeb.Columns.{ChangedAt, same_row, changed_row, Cols, Cols-scan, entered}

module _ (prev curr : Bytes) (w : ℕ) where
  abbrev Changed : ℕ → ℕ → Type 0
  Changed r q = ChangedAt prev curr (r * w * 3) q

  -- The scan before the row `row`, if nothing changed so far.
  record Blank (row : ℕ) (d : Scan) : Type 0 where
    start : (d.min_row ≡ none) × (d.row_end ≡ 0) × (d.min_col ≡ w) × (d.col_end ≡ 0)
    same : (r q : ℕ) → r < row → q < w → ¬ Changed r q

  -- The scan before the row `row`, if something changed: the four sides, each of which has a changed
  -- pixel.
  record Marked (row : ℕ) (d : Scan) : Type 0 where
    top : ℕ
    bottom : ℕ
    right : ℕ
    sides : (d.min_row ≡ some top) × (d.row_end ≡ suc bottom) × (d.col_end ≡ suc right)
    inside : (bottom < row) × (right < w)
    covers :
        (r q : ℕ)
        → r < row
        → q < w
        → Changed r q
        → (top ≤ r) × (r ≤ bottom) × (d.min_col ≤ q) × (q ≤ right)
    top_hit : (q : ℕ) × (q < w) × Changed top q
    bottom_hit : (q : ℕ) × (q < w) × Changed bottom q
    left_hit : (r : ℕ) × (r < row) × (d.min_col < w) × Changed r d.min_col
    right_hit : (r : ℕ) × (r < row) × Changed r right

  abbrev Scanned : ℕ → Scan → Type 0
  Scanned row d = Blank row d ⊎ Marked row d

  same_step :
      (row : ℕ) (d : Scan)
      → same_bytes prev curr (row * w * 3) (w * 3) ≡ true
      → Scanned row d
      → Scanned (row + 1) d
  same_step row d h (inl b) = inl (record {
    start = b.start;
    same = λ r q l k c. elim (Bool-cases (r == row)) [
      | inl here ↦
          same_row prev curr (row * w * 3) w q h k
            (subst (λ z. Changed z q) ((==_iff r row).0 here) c)
      | inr before ↦ b.same r q (ground arith) k c
    ];
  })
  same_step row d h (inr m) = inr (record {
    top = m.top;
    bottom = m.bottom;
    right = m.right;
    sides = m.sides;
    inside = (omega (arith, m.inside.0), m.inside.1);
    covers = λ r q l k c. elim (Bool-cases (r == row)) [
      | inl here ↦ absurd (
          same_row prev curr (row * w * 3) w q h k
            (subst (λ z. Changed z q) ((==_iff r row).0 here) c))
      | inr before ↦ m.covers r q (ground arith) k c
    ];
    top_hit = m.top_hit;
    bottom_hit = m.bottom_hit;
    left_hit = let (r, l, k, c) = m.left_hit in (r, omega arith, k, c);
    right_hit = let (r, l, c) = m.right_hit in (r, omega arith, c);
  })

  first_step :
      (row : ℕ) (d d' : Scan)
      → same_bytes prev curr (row * w * 3) (w * 3) ≡ false
      → Cols prev curr (row * w * 3) 0 w (enter_row row d) d'
      → Blank row d
      → Marked (row + 1) d'
  first_step row d d' h r b =
      let (q₀, l₀, c₀) = changed_row prev curr (row * w * 3) w h in
      let (lo, hi) = r.covers q₀ (omega arith) (omega arith) c₀ in
      let (q, e, l, c) : (q : ℕ) × (d'.col_end ≡ suc q) × (q < w) × Changed row q =
        elim r.right_hit [
          | inl e ↦ absurd (omega (arith, e, b.start.3, hi))
          | inr (q, e, l, c) ↦ (q, e, omega arith, c)
        ] in
      let (k, f) : (d'.min_col < w) × Changed row d'.min_col = elim r.left_hit [
        | inl e ↦ absurd (omega (arith, e, b.start.2, lo))
        | inr (k, f) ↦ (omega arith, f)
      ] in
      record {
        top = row;
        bottom = row;
        right = q;
        sides = (r.rows.0 ∙ ap (entered prev curr row) b.start.0, r.rows.1 ∙ omega arith, e);
        inside = (omega arith, l);
        covers = λ x y lx ly cy. elim (Bool-cases (x == row)) [
          | inl here ↦
              let it_is : x ≡ row = (==_iff x row).0 here in
              let at = r.covers y (omega arith) (omega arith) (subst (λ z. Changed z y) it_is cy) in
              (omega arith, omega arith, at.0, omega (arith, at.1, e))
          | inr before ↦ absurd (b.same x y (ground arith) ly cy)
        ];
        top_hit = (q, l, c);
        bottom_hit = (q, l, c);
        left_hit = (row, omega arith, k, f);
        right_hit = (row, omega arith, c);
      }

  next_step :
      (row : ℕ) (d d' : Scan)
      → same_bytes prev curr (row * w * 3) (w * 3) ≡ false
      → Cols prev curr (row * w * 3) 0 w (enter_row row d) d'
      → Marked row d
      → Marked (row + 1) d'
  next_step row d d' h r m =
      let (q₀, l₀, c₀) = changed_row prev curr (row * w * 3) w h in
      let (q, e, l, x, lx, c) : (q : ℕ) × (d'.col_end ≡ suc q)
          × (q < w)
          × (x : ℕ) × (x < row + 1)
          × Changed x q =
        elim r.right_hit [
          | inl e ↦
              let (x, lx, c) = m.right_hit in
              (m.right, e ∙ m.sides.2, m.inside.1, x, omega arith, c)
          | inr (q, e, l, c) ↦ (q, e, omega arith, row, omega arith, c)
        ] in
      record {
        top = m.top;
        bottom = row;
        right = q;
        sides = (r.rows.0 ∙ ap (entered prev curr row) m.sides.0, r.rows.1 ∙ omega arith, e);
        inside = (omega arith, l);
        covers = λ y z ly lz cz. elim (Bool-cases (y == row)) [
          | inl here ↦
              let it_is : y ≡ row = (==_iff y row).0 here in
              let at = r.covers z (omega arith) (omega arith) (subst (λ k. Changed k z) it_is cz) in
              let top_in = m.covers _ _ m.left_hit.1 m.left_hit.2 m.left_hit.3 in
              (
                omega (arith, top_in, m.left_hit.1, it_is),
                omega arith,
                at.0,
                omega (arith, at.1, e),
              )
          | inr before ↦
              let old = m.covers y z (ground arith) lz cz in
              (
                old.0,
                omega (arith, ly),
                omega (arith, old.2, r.left_grows),
                omega (arith, old.3, r.right_grows, m.sides.2, e),
              )
        ];
        top_hit = m.top_hit;
        bottom_hit = (q₀, l₀, c₀);
        left_hit = elim r.left_hit [
          | inl same ↦
              let (y, ly, k, f) = m.left_hit in
              (y, omega arith, omega arith, subst (Changed y) (sym same) f)
          | inr (k, f) ↦ (row, omega arith, omega arith, f)
        ];
        right_hit = (x, lx, c);
      }

  changed_step :
      (row : ℕ) (d d' : Scan)
      → same_bytes prev curr (row * w * 3) (w * 3) ≡ false
      → Cols prev curr (row * w * 3) 0 w (enter_row row d) d'
      → Scanned row d
      → Scanned (row + 1) d'
  changed_step row d d' h r (inl b) = inr (first_step row d d' h r b)
  changed_step row d d' h r (inr m) = inr (next_step row d d' h r m)

  scan_rows-Scanned :
      (row n : ℕ) (d : Scan) → Scanned row d → Scanned (row + n) (scan_rows prev curr w row n d)
  unfolding scan_rows
  scan_rows-Scanned row zero d v = subst (λ z. Scanned z d) (omega arith) v
  scan_rows-Scanned row (suc n) d v =
      let on : (d' : Scan)
          → Scanned (row + 1) d'
          → Scanned (row + suc n) (scan_rows prev curr w (row + 1) n d') =
        λ d' v'.
          subst (λ z. Scanned z (scan_rows prev curr w (row + 1) n d')) (omega arith)
            (scan_rows-Scanned (row + 1) n d' v') in
      elim (Bool-cases (same_bytes prev curr (row * w * 3) (w * 3))) [
        | inl h ↦ rw h (on d (same_step row d h v))
        | inr h ↦ rw h (
            on _
              (changed_step row d _ h (Cols-scan prev curr (row * w * 3) 0 w (enter_row row d)) v))
      ]

  -- The rectangle holds every changed pixel, lies in the image, and has a changed pixel in its first
  -- and last row and column.
  pub record Bounds (h : ℕ) (r : Rect) : Type 0 where
    pub some_size : (0 < r.width) × (0 < r.height)
    pub in_image : (r.rx + r.width ≤ w) × (r.ry + r.height ≤ h)
    pub covers :
        (y x : ℕ)
        → y < h
        → x < w
        → Changed y x
        → (r.ry ≤ y) × (y < r.ry + r.height) × (r.rx ≤ x) × (x < r.rx + r.width)
    pub first_row : (x : ℕ) × (x < w) × Changed r.ry x
    pub last_row : (x : ℕ) × (x < w) × Changed (r.ry + r.height - 1) x
    pub first_col : (y : ℕ) × (y < h) × Changed y r.rx
    pub last_col : (y : ℕ) × (y < h) × Changed y (r.rx + r.width - 1)

  Marked-Bounds :
      (h : ℕ) (d : Scan) (m : Marked h d)
      → Bounds h (record {
        rx = d.min_col;
        ry = m.top;
        width = d.col_end - d.min_col;
        height = d.row_end - m.top;
      })
  Marked-Bounds h d m =
      let bottom_is = m.sides.1 in
      let right_is = m.sides.2 in
      let inside = m.inside in
      let (y, ly, k, f) = m.left_hit in
      let at_left = m.covers y d.min_col ly k f in
      record {
        some_size = (omega arith, omega arith);
        in_image = (omega (arith, m.inside), omega (arith, m.inside));
        covers = λ r q lr lq c.
            let at = m.covers r q lr lq c in (at.0, omega (arith, at.1), at.2, omega (arith, at.3));
        first_row = m.top_hit;
        last_row =
            let (x, lx, c) = m.bottom_hit in (x, lx, subst (λ z. Changed z x) (omega arith) c);
        first_col = (y, ly, f);
        last_col = let (z, lz, c) = m.right_hit in (z, lz, subst (Changed z) (omega arith) c);
      }

  abbrev pub Answer : ℕ → Option Rect → Type 0
  Answer h none = (y x : ℕ) → y < h → x < w → ¬ Changed y x
  Answer h (some r) = Bounds h r

  -- Of two images of the same size, the scan gives no rectangle only if no pixel changed, and else the
  -- smallest rectangle that holds all changed pixels.
  pub dirty_rect-Answer : (h : ℕ) → Answer h (dirty_rect prev curr w h)
  unfolding dirty_rect
  dirty_rect-Answer h =
      let d =
        scan_rows prev curr w 0 h
          (record { min_row = none; row_end = 0; min_col = w; col_end = 0 }) in
      let v : Scanned h d =
        subst (λ z. Scanned z d) (omega arith)
          (scan_rows-Scanned 0 h _
            (inl (record { start = (refl, refl, refl, refl); same = λ r q l k c. omega arith }))) in
      elim v [
        | inl b ↦ subst (λ o. Answer h (rect_of d o)) (sym b.start.0) b.same
        | inr m ↦ subst (λ o. Answer h (rect_of d o)) (sym m.sides.0) (Marked-Bounds h d m)
      ]
