-- ===== src/Resizing.antt =====
-- The width of the right-hand panel, client/src/hooks/useResizablePanel.ts, and the handle that
-- changes it, client/src/components/atoms/resize_handle/ResizeHandle.vm.ts. A change to the right
-- is `wider n`, one to the left `narrower n`, for n pixels.
pub mod Width
mod Tests
use wiremap.Base.{
  ℕ, zero, suc, ◌+◌, ◌-◌, ◌*◌, min, max, Bool, true, false, not, ◌&&◌, ◌||◌, Option, none, some,
  List, [], ◌∷◌, Text, leb, if◌then◌else◌, codes, ◌==◌, nat_eq,
}
use wiremap.Format.{decimal}
use wiremap.Blank.{trim_start}

abbrev pub default_width : ℕ
default_width = 480

abbrev pub min_width : ℕ
min_width = 320

abbrev pub max_width : ℕ
max_width = 1200

abbrev is_digit : ℕ → Bool
is_digit c = leb b'0' c && leb c b'9'

-- The number that the digits at the head of a text spell after `acc`.
unfoldable pub digits_from : ℕ → Text → ℕ
digits_from acc [] = acc
digits_from acc (c ∷ s) =
    let rest = digits_from (acc * 10 + (c - b'0')) s in if is_digit c then rest else acc

abbrev digits : Text → Option ℕ
digits [] = none
digits (c ∷ s) = if is_digit c then some (digits_from 0 (c ∷ s)) else none

abbrev signed : Text → Option ℕ
signed [] = none
signed (c ∷ s) = if c == b'+' then digits s else digits (c ∷ s)

-- `parseInt(s, 10)`: none is NaN or a number below zero, of which the callers make the same.
unfoldable pub parse_int : Text → Option ℕ
unfolding digits_from trim_start
parse_int s = signed (trim_start s)

abbrev in_range : Option ℕ → ℕ
in_range none = default_width
in_range (some n) = if leb min_width n && leb n max_width then n else default_width

-- `localStorage` at the panel's key, where an empty text counts as absent.
unfoldable pub load_panel_width : Option Text → ℕ
unfolding parse_int
load_panel_width none = default_width
load_panel_width (some s) = in_range (parse_int s)

pub data Delta : Type 0 where
  wider narrower : ℕ → Delta

-- `Math.max(MIN, Math.min(MAX, w + delta))`. A sum below zero and zero are both below MIN.
unfoldable pub clamp : Delta → ℕ → ℕ
clamp (Delta.wider n) w = max min_width (min max_width (w + n))
clamp (Delta.narrower n) w = max min_width (min max_width (w - n))

-- The panel, and the mouse at its handle: whether it is held, and where it was last.
pub record Panel : Type 0 where
  pub width : ℕ
  pub expanded : Bool
  pub stored : Option Text
  pub held : Bool
  pub start_x : ℕ

pub data Input : Type 0 where
  toggled : Input
  pressed moved : (client_x : ℕ) → Input
  released : Input

-- `startX - clientX`.
unfoldable pub moved_by : ℕ → ℕ → Delta
moved_by start x = if leb x start then Delta.wider (start - x) else Delta.narrower (x - start)

unfoldable pub step : Input → Panel → Panel
unfolding clamp moved_by decimal
step Input.toggled p = record p { expanded = not p.expanded }
step (Input.pressed x) p = record p { held = true; start_x = x }
step (Input.moved x) p =
    if p.held then record p { width = clamp (moved_by p.start_x x) p.width; start_x = x } else p
step Input.released p =
    if p.held then record p { held = false; stored = some (decimal p.width) } else p

unfoldable pub run : List Input → Panel → Panel
unfolding step
run [] p = p
run (i ∷ is) p = run is (step i p)

unfoldable pub mounted : Option Text → Panel
unfolding load_panel_width
mounted stored = record {
  width = load_panel_width stored;
  expanded = false;
  stored = stored;
  held = false;
  start_x = 0;
}
