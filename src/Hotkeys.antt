-- ===== src/Hotkeys.antt =====
-- client/src/hooks/useKubeHotkeys.ts: which handler a key press calls. What the code asks of the
-- event and of its target is in the record of the event.
use wiremap.Base.{Bool, ◌&&◌, ◌||◌, Option, none, some, Text, codes, ◌==◌, text_eq, if◌then◌else◌}
use wiremap.KubeTypes.{PanelAction}

pub data Delta : Type 0 where
  down up : Delta

-- What a key calls.
pub data Hotkey : Type 0 where
  command filter opens escape back : Hotkey
  move : Delta → Hotkey
  panel : PanelAction → Hotkey

pub record KeyEvent : Type 0 where
  pub key : Text
  pub ctrl_key : Bool
  pub meta_key : Bool
  pub alt_key : Bool
  pub is_typing : Bool
  pub on_button : Bool

unfoldable pub panel_key : Text → Option PanelAction
panel_key k =
    if k == codes "l"
    then some PanelAction.logs
    else if k == codes "s"
    then some PanelAction.shell
    else if k == codes "y"
    then some PanelAction.yaml
    else if k == codes "d"
    then some PanelAction.describe
    else none

abbrev panel_hotkey : Option PanelAction → Option Hotkey
panel_hotkey none = none
panel_hotkey (some action) = some (Hotkey.panel action)

-- The handler that a key press calls; without one, the event keeps its default.
unfoldable pub hotkey : KeyEvent → Option Hotkey
unfolding panel_key
hotkey e =
    if e.ctrl_key || e.meta_key || e.alt_key || e.is_typing
    then none
    else if e.key == codes "Enter" && e.on_button
    then none
    else if e.key == codes ":"
    then some Hotkey.command
    else if e.key == codes "/"
    then some Hotkey.filter
    else if e.key == codes "Enter"
    then some Hotkey.opens
    else if e.key == codes "Escape"
    then some Hotkey.escape
    else if e.key == codes "Backspace"
    then some Hotkey.back
    else if e.key == codes "ArrowDown" || e.key == codes "j"
    then some (Hotkey.move Delta.down)
    else if e.key == codes "ArrowUp" || e.key == codes "k"
    then some (Hotkey.move Delta.up)
    else panel_hotkey (panel_key e.key)
