-- ===== src/Report/Html/Layout.antt =====
-- The bars of a chart of examples/report.rs: inside the picture, and none over another.
use test_thread_safe_lru_cac.Base.{
  ℕ, ◌+◌, ◌*◌, ◌-◌, ◌%◌, ◌≤◌, ◌<◌, ◌≡◌, refl, some, List, [], ◌∷◌, length, get_elem?,
  is_some-get_elem?, arith, Bool-cases, Option-cases, inl, inr, String,
}
use text.Mathlib.Text.{◌==◌ as str_eq}
use test_thread_safe_lru_cac.Report.Html.{
  Floats, Bar, bar, Svg, colors, color_of, max_loop, max_val, bars_loop, svg_bars,
}

-- The order of the numbers in a chart, of which none is a NaN.
pub record IsOrder (f : Floats) : Type 1 where
  pub AtMost : f.Float → f.Float → Type 0
  pub at_most_refl : (a : f.Float) → AtMost a a
  pub at_most_trans : (a b c : f.Float) → AtMost a b → AtMost b c → AtMost a c
  pub maximum_left : (a b : f.Float) → AtMost a (f.maximum a b)
  pub maximum_right : (a b : f.Float) → AtMost b (f.maximum a b)
  -- A bar is at most 380 wide where its value is at most the whole, and the whole at least one; the
  -- bar of a value below zero has no width.
  pub scaled_le : (v m : f.Float) → AtMost (f.from 1) m → AtMost v m → f.scaled v m 380 ≤ 380

color_of-some : (color_base : String) (i : ℕ) → (c : String) × (color_of color_base i ≡ some c)
color_of-some color_base i = elim (Bool-cases (str_eq color_base "")) [
  | inl e ↦ elim (Option-cases (get_elem? colors (i % length colors))) [
    | inl o ↦ absurd (ground (arith, is_some-get_elem? colors (i % length colors) (omega arith)))
    | inr (c, o) ↦ (c, rw (e, o) refl)
  ]
  | inr e ↦ (color_base, rw e refl)
]

module _ {f : Floats} (o : IsOrder f) where
  abbrev pub AllAtMost : f.Float → List (String × f.Float) → Type 0
  AllAtMost m [] = Unit
  AllAtMost m ((label, val) ∷ values) = o.AtMost val m × AllAtMost m values

  AllAtMost-trans :
      (m n : f.Float) (values : List (String × f.Float))
      → o.AtMost m n
      → AllAtMost m values
      → AllAtMost n values
  AllAtMost-trans m n [] h a = tt
  AllAtMost-trans m n ((label, val) ∷ values) h a =
      (o.at_most_trans val m n a.0 h, AllAtMost-trans m n values h a.1)

  max_loop_le :
      (m : f.Float) (values : List (String × f.Float))
      → o.AtMost m (max_loop f m values) × AllAtMost (max_loop f m values) values
  max_loop_le m [] = (o.at_most_refl m, tt)
  max_loop_le m ((label, val) ∷ values) =
      let (first, rest) = max_loop_le (f.maximum m val) values in
      (
        o.at_most_trans m (f.maximum m val) _ (o.maximum_left m val) first,
        (o.at_most_trans val (f.maximum m val) _ (o.maximum_right m val) first, rest),
      )

  -- From a height on, one bar for each value, drawn to scale, each below the bar before, inside the
  -- picture.
  abbrev pub AllLaidOut : f.Float → ℕ → ℕ → ℕ → ℕ → List (Bar f) → List (String × f.Float) → Type 0
  AllLaidOut m start width height axis [] [] = Unit
  AllLaidOut m start width height axis (b ∷ bars) [] = ⊥
  AllLaidOut m start width height axis [] (v ∷ values) = ⊥
  AllLaidOut m start width height axis (b ∷ bars) ((label, val) ∷ values) =
      (b.label ≡ label)
      × (b.bar_px ≡ f.scaled val m 380)
      × (b.bar_px ≤ 380)
      × (start < b.y)
      × (b.text_y < b.y + 28)
      × (b.y + 28 < axis)
      × (axis < height)
      × (b.figure_x < width)
      × AllLaidOut m (b.y + 28) width height axis bars values

  bars_loop-AllLaidOut :
      (m : f.Float) (color_base : String) (values : List (String × f.Float))
      (i n start width height axis : ℕ)
      → o.AtMost (f.from 1) m
      → AllAtMost m values
      → i + length values ≤ n
      → start < 20 + i * 36
      → width ≡ 720
      → height ≡ n * 36 + 40
      → axis ≡ n * 36 + 34
      → (bars : List (Bar f)) × (bars_loop f m color_base i values ≡ some bars)
        × AllLaidOut m start width height axis bars values
  unfolding bars_loop
  bars_loop-AllLaidOut m color_base [] i n start width height axis one a b s w h x = ([], refl, tt)
  bars_loop-AllLaidOut m color_base ((label, val) ∷ values) i n start width height axis one a b s w
        h x =
      let (c, ran) = color_of-some color_base i in
      let (bars, rest, laid) =
        bars_loop-AllLaidOut m color_base values (i + 1) n (20 + i * 36 + 28) width height axis one
          a.1 (omega arith) (omega arith) w h x in
      let fits = o.scaled_le val m one a.0 in
      (
        bar f m i label val c ∷ bars,
        rw (ran, rest) refl,
        (
          refl,
          refl,
          fits,
          s,
          omega arith,
          omega (arith, h, x),
          omega (arith, h, x),
          omega (arith, fits, w),
          laid,
        ),
      )

  -- x
  pub svg_bars_lem :
      (v : String × f.Float) (values : List (String × f.Float)) (x_label color_base : String)
      → (svg : Svg f) × (svg_bars f (v ∷ values) x_label color_base ≡ some (some svg))
        × AllAtMost (max_val f (v ∷ values)) (v ∷ values)
        × AllLaidOut
            (max_val f (v ∷ values))
            0
            svg.width
            svg.height
            svg.x_label_y
            svg.bars
            (v ∷ values)
  unfolding svg_bars
  svg_bars_lem v values x_label color_base =
      let m = max_val f (v ∷ values) in
      let (_, below) = max_loop_le (f.from 0) (v ∷ values) in
      let all = AllAtMost-trans _ m (v ∷ values) (o.maximum_left _ (f.from 1)) below in
      let shape : List (Bar f) → Svg f = λ bars. record {
        width = 280 + 380 + 60;
        height = length (v ∷ values) * (28 + 8) + 40;
        bars = bars;
        x_label = x_label;
        x_label_y = length (v ∷ values) * (28 + 8) + 40 - 6;
      } in
      let (bars, ran, laid) =
        bars_loop-AllLaidOut m color_base (v ∷ values) 0 (length (v ∷ values)) 0 _ _ _
          (o.maximum_right _ (f.from 1)) all (omega arith) (omega arith) (omega arith) (omega arith)
          (omega arith) in
      (shape bars, rw ran refl, all, laid)
