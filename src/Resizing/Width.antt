-- ===== src/Resizing/Width.antt =====
-- The bounds of the width, and the width that comes back from the store.
use wiremap.Base.{
  ℕ, zero, suc, ◌+◌, ◌*◌, ◌/◌, ◌%◌, ◌≤◌, ◌<◌, ◌≡◌, refl, ap, ◌∙◌, inl, inr, true, false, ◌&&◌,
  Option, none, some, List, [], ◌∷◌, Text, arith, ltb, leb, ◌==◌, nat_eq, Bool-cases, if_elim,
}
use wiremap.Format.{decimal, decimal_from}
use wiremap.Blank.{trim_start, is_space}
use wiremap.Resizing.{
  Delta, Input, Panel, clamp, digits_from, in_range, is_digit, load_panel_width, max_width,
  min_width, mounted, moved_by, parse_int, run, step,
}

abbrev pub IsWidth : ℕ → Type 0
IsWidth w = (min_width ≤ w) × (w ≤ max_width)

in_range-IsWidth : (n : Option ℕ) → IsWidth (in_range n)
in_range-IsWidth none = (omega arith, omega arith)
in_range-IsWidth (some n) = elim (Bool-cases (leb min_width n && leb n max_width)) [
  | inl e ↦ rw e (ground arith)
  | inr e ↦ rw e (omega arith, omega arith)
]

load_panel_width-IsWidth : (stored : Option Text) → IsWidth (load_panel_width stored)
unfolding load_panel_width
load_panel_width-IsWidth none = (omega arith, omega arith)
load_panel_width-IsWidth (some s) = in_range-IsWidth (parse_int s)

clamp-IsWidth : (d : Delta) (w : ℕ) → IsWidth (clamp d w)
unfolding clamp
clamp-IsWidth (Delta.wider n) w = (omega arith, omega arith)
clamp-IsWidth (Delta.narrower n) w = (omega arith, omega arith)

step-IsWidth : (i : Input) (p : Panel) → IsWidth p.width → IsWidth (step i p).width
unfolding step
step-IsWidth Input.toggled p h = h
step-IsWidth (Input.pressed x) p h = h
step-IsWidth (Input.moved x) p h =
    if_elim (λ (q : Panel). IsWidth q.width) p.held _ _
      (λ e. clamp-IsWidth (moved_by p.start_x x) p.width) (λ e. h)
step-IsWidth Input.released p h =
    if_elim (λ (q : Panel). IsWidth q.width) p.held _ _ (λ e. h) (λ e. h)

run-IsWidth : (is : List Input) (p : Panel) → IsWidth p.width → IsWidth (run is p).width
unfolding run
run-IsWidth [] p h = h
run-IsWidth (i ∷ is) p h = run-IsWidth is (step i p) (step-IsWidth i p h)

-- Whatever the store holds and the mouse does, the panel is between 320 and 1200 pixels wide.
pub mounted-IsWidth :
    (stored : Option Text) (is : List Input) → IsWidth (run is (mounted stored)).width
unfolding mounted
mounted-IsWidth stored is = run-IsWidth is (mounted stored) (load_panel_width-IsWidth stored)

digits_from-digit :
    (n d m : ℕ) (acc : Text)
    → d < 10
    → n * 10 + d ≡ m
    → digits_from n ((b'0' + d) ∷ acc) ≡ digits_from m acc
unfolding digits_from
digits_from-digit n d m acc h q =
    let e : is_digit (b'0' + d) ≡ true = ground arith in
    rw e (ap (λ i. digits_from i acc) (omega (arith, q)))

-- The digits that `decimal_from` writes are read back as the number.
digits_from-decimal_from :
    (f n : ℕ) (acc : Text) → n ≤ f → digits_from 0 (decimal_from (suc f) n acc) ≡ digits_from n acc
unfolding decimal_from
digits_from-decimal_from zero n acc h =
    let e : ltb n 10 ≡ true = ground arith in
    rw e (digits_from-digit 0 n n acc (omega arith) (omega arith))
digits_from-decimal_from (suc f) n acc h = elim (Bool-cases (ltb n 10)) [
  | inl e ↦ rw e (digits_from-digit 0 n n acc (ground arith) (omega arith))
  | inr e ↦ rw e (
      digits_from-decimal_from f (n / 10) ((b'0' + n % 10) ∷ acc) (ground arith)
      ∙ digits_from-digit (n / 10) (n % 10) n acc (omega arith) (omega arith))
]

-- A text that starts with a digit.
data StartsWithDigit : Text → Type 0 where
  digit : (d : ℕ) (s : Text) → d < 10 → StartsWithDigit ((b'0' + d) ∷ s)

decimal_from-StartsWithDigit :
    (f n : ℕ) (acc : Text) → n ≤ f → StartsWithDigit (decimal_from (suc f) n acc)
unfolding decimal_from
decimal_from-StartsWithDigit zero n acc h =
    let e : ltb n 10 ≡ true = ground arith in rw e (StartsWithDigit.digit n acc (omega arith))
decimal_from-StartsWithDigit (suc f) n acc h = elim (Bool-cases (ltb n 10)) [
  | inl e ↦ rw e (StartsWithDigit.digit n acc (ground arith))
  | inr e ↦ rw e (decimal_from-StartsWithDigit f (n / 10) _ (ground arith))
]

parse_int-digit : (s : Text) → StartsWithDigit s → parse_int s ≡ some (digits_from 0 s)
unfolding parse_int trim_start
parse_int-digit _ (StartsWithDigit.digit d s h) =
    let e : is_space (b'0' + d) ≡ false = ground arith in
    let g : is_digit (b'0' + d) ≡ true = ground arith in
    let k : (b'0' + d == b'+') ≡ false = ground arith in rw (e, k, g) refl

-- `parseInt` of a number as the template writes it is the number.
pub parse_int-decimal : (n : ℕ) → parse_int (decimal n) ≡ some n
unfolding decimal
parse_int-decimal n =
    parse_int-digit _ (decimal_from-StartsWithDigit n n [] (omega arith))
    ∙ ap some (digits_from-decimal_from n n [] (omega arith) ∙ (unfold digits_from in refl))

load_panel_width-decimal : (w : ℕ) → IsWidth w → load_panel_width (some (decimal w)) ≡ w
unfolding load_panel_width
load_panel_width-decimal w h =
    let e : (leb min_width w && leb w max_width) ≡ true = ground arith in
    rw (parse_int-decimal w, e) refl

released-stored :
    (p : Panel) → p.held ≡ true → (step Input.released p).stored ≡ some (decimal p.width)
unfolding step
released-stored p h = rw h refl

-- After any use of the handle, a drag that ends stores a width with which the panel comes back,
-- closed, at the next visit.
pub mounted-released :
    (stored : Option Text) (is : List Input)
    → let p = run is (mounted stored) in
      p.held ≡ true
      → mounted (step Input.released p).stored ≡ record {
        width = p.width;
        expanded = false;
        stored = some (decimal p.width);
        held = false;
        start_x = 0;
      }
unfolding mounted
mounted-released stored is h =
    ap mounted (released-stored _ h)
    ∙ ap
        (λ w. record {
          width = w;
          expanded = false;
          stored = some (decimal (run is (mounted stored)).width);
          held = false;
          start_x = 0;
        })
        (load_panel_width-decimal _ (mounted-IsWidth stored is))
