-- ===== src/GuacWeb/Input.antt =====
-- `make_key_params`, `send_key` and `send_mouse` of src/guac_web.cpp. A button mask is given by the
-- bits of the int, and so is a keysym; a coordinate is written as std::to_string writes it.
use tunnel_proxy.Base.{
  ℕ, suc, ◌+◌, ◌-◌, ◌/◌, ◌%◌, Bool, true, false, not, ◌&&◌, ◌||◌, List, [], ◌∷◌, ◌++◌, leb, ltb,
  ◌==◌, if◌then◌else◌, Bytes, codes, is_empty, to_string, ℤ, pos, negsuc,
}
use tunnel_proxy.GuacWeb.{GuacWebClient}

-- A key of the DOM, with its virtual key code, and its text when it is pressed.
pub record DomKey : Type 0 where
  pub key : Bytes
  pub vk : ℕ
  pub text : Bytes

abbrev named : Bytes → ℕ → DomKey
named key vk = record { key = key; vk = vk; text = [] }

-- The keysyms from F1 to F12 are in sequence, and so are their codes.
abbrev function_key : ℕ → DomKey
function_key n = named (b'F' ∷ to_string (n + 1)) (112 + n)

abbrev pub special_key : ℕ → DomKey
special_key keysym =
    if keysym == 0xFF08
    then named (codes "Backspace") 8
    else if keysym == 0xFF09
    then named (codes "Tab") 9
    else if keysym == 0xFF0D
    then record { key = codes "Enter"; vk = 13; text = 13 ∷ [] }
    else if keysym == 0xFF1B
    then named (codes "Escape") 27
    else if keysym == 0xFF50
    then named (codes "Home") 36
    else if keysym == 0xFF51
    then named (codes "ArrowLeft") 37
    else if keysym == 0xFF52
    then named (codes "ArrowUp") 38
    else if keysym == 0xFF53
    then named (codes "ArrowRight") 39
    else if keysym == 0xFF54
    then named (codes "ArrowDown") 40
    else if keysym == 0xFF55
    then named (codes "PageUp") 33
    else if keysym == 0xFF56
    then named (codes "PageDown") 34
    else if keysym == 0xFF57
    then named (codes "End") 35
    else if keysym == 0xFF63
    then named (codes "Insert") 45
    else if keysym == 0xFFFF
    then named (codes "Delete") 46
    else if leb 0xFFBE keysym && leb keysym 0xFFC9
    then function_key (keysym - 0xFFBE)
    else if (keysym == 0xFFE1) || (keysym == 0xFFE2)
    then named (codes "Shift") 16
    else if (keysym == 0xFFE3) || (keysym == 0xFFE4)
    then named (codes "Control") 17
    else if (keysym == 0xFFE9) || (keysym == 0xFFEA)
    then named (codes "Alt") 18
    else if (keysym == 0xFFE7) || (keysym == 0xFFE8)
    then named (codes "Meta") 91
    else named (codes "Unidentified") 0

unfoldable pub dom_key : ℕ → DomKey
dom_key keysym =
    if leb 0x20 keysym && leb keysym 0x7E
    then record { key = keysym ∷ []; vk = keysym; text = keysym ∷ [] }
    else special_key keysym

unfoldable pub escape : Bytes → Bytes
escape [] = []
escape (c ∷ cs) =
    let others = escape cs in
    if c == b'"'
    then b'\\' ∷ b'"' ∷ others
    else if c == b'\\'
    then b'\\' ∷ b'\\' ∷ others
    else if c == 13
    then b'\\' ∷ b'r' ∷ others
    else c ∷ others

unfoldable pub make_key_params : ℕ → Bool → Bytes
unfolding dom_key escape
make_key_params keysym pressed =
    let k = dom_key keysym in
    let text = if pressed then k.text else [] in
    codes "{\"type\":\""
    ++ (if pressed then codes "keyDown" else codes "keyUp")
    ++ codes "\",\"key\":\""
    ++ escape k.key
    ++ codes "\""
    ++ (if ltb 0 k.vk then codes ",\"windowsVirtualKeyCode\":" ++ to_string k.vk else [])
    ++ (if is_empty text then [] else codes ",\"text\":\"" ++ escape text ++ codes "\"")
    ++ codes "}"

abbrev pub push : Bytes → Bytes → GuacWebClient → GuacWebClient
push method params c = record c {
  input_queue = c.input_queue ++ (record { method = method; params = params } ∷ []);
}

unfoldable pub send_key : ℕ → Bool → GuacWebClient → GuacWebClient
unfolding make_key_params
send_key keysym pressed c = push (codes "Input.dispatchKeyEvent") (make_key_params keysym pressed) c

-- `mask & 2 ^ k` is not 0, for the value `bit` of 2 ^ k.
abbrev pub has : ℕ → ℕ → Bool
has mask bit = (mask / bit) % 2 == 1

pub data Button : Type 0 where
  left middle right : Button

-- The bit of a button in a mask of Guacamole, and in one of CDP.
abbrev pub guac_bit : Button → ℕ
guac_bit left = 1
guac_bit middle = 2
guac_bit right = 4

abbrev pub cdp_bit : Button → ℕ
cdp_bit left = 1
cdp_bit middle = 4
cdp_bit right = 2

abbrev bits_of : ℕ → Button → ℕ
bits_of mask b = if has mask (guac_bit b) then cdp_bit b else 0

unfoldable pub cdp_buttons : ℕ → ℕ
cdp_buttons mask = bits_of mask left + bits_of mask middle + bits_of mask right

abbrev pub button_name : Button → Bytes
button_name left = codes "left"
button_name middle = codes "middle"
button_name right = codes "right"

-- The events of `send_mouse`.
pub data MouseEvent : Type 0 where
  wheel_up wheel_down moved : MouseEvent
  pressed released : Button → MouseEvent

abbrev pub int_to_string : ℤ → Bytes
int_to_string (pos n) = to_string n
int_to_string (negsuc n) = b'-' ∷ to_string (suc n)

abbrev pub place : ℤ → ℤ → Bytes
place x y = codes ",\"x\":" ++ int_to_string x ++ codes ",\"y\":" ++ int_to_string y

-- `mouse_params` without the closing brace.
abbrev mouse_params : Bytes → Bytes → ℤ → ℤ → ℕ → Bytes
mouse_params type button x y buttons =
    codes "{\"type\":\""
    ++ type
    ++ codes "\""
    ++ place x y
    ++ codes ",\"button\":\""
    ++ button
    ++ codes "\""
    ++ codes ",\"buttons\":"
    ++ to_string buttons

unfoldable pub event_params : ℤ → ℤ → ℕ → MouseEvent → Bytes
event_params x y buttons wheel_up =
    codes "{\"type\":\"mouseWheel\"" ++ place x y ++ codes ",\"deltaX\":0,\"deltaY\":-120}"
event_params x y buttons wheel_down =
    codes "{\"type\":\"mouseWheel\"" ++ place x y ++ codes ",\"deltaX\":0,\"deltaY\":120}"
event_params x y buttons moved =
    mouse_params (codes "mouseMoved") (codes "none") x y buttons ++ codes "}"
event_params x y buttons (pressed b) =
    mouse_params (codes "mousePressed") (button_name b) x y buttons ++ codes ",\"clickCount\":1}"
event_params x y buttons (released b) =
    mouse_params (codes "mouseReleased") (button_name b) x y buttons ++ codes ",\"clickCount\":1}"

abbrev pub only_if : Bool → MouseEvent → List MouseEvent
only_if true e = e ∷ []
only_if false e = []

abbrev pub newly_pressed : ℕ → ℕ → Button → Bool
newly_pressed prev mask b = has mask (guac_bit b) && not (has prev (guac_bit b))

abbrev pub newly_released : ℕ → ℕ → Button → Bool
newly_released prev mask b = not (has mask (guac_bit b)) && has prev (guac_bit b)

unfoldable pub mouse_events : ℕ → ℕ → List MouseEvent
mouse_events prev mask =
    only_if (has mask 8) wheel_up
    ++ only_if (has mask 16) wheel_down
    ++ only_if (newly_pressed prev mask left) (pressed left)
    ++ only_if (newly_pressed prev mask middle) (pressed middle)
    ++ only_if (newly_pressed prev mask right) (pressed right)
    ++ only_if (newly_released prev mask left) (released left)
    ++ only_if (newly_released prev mask middle) (released middle)
    ++ only_if (newly_released prev mask right) (released right)
    ++ (moved ∷ [])

unfoldable pub push_all : ℤ → ℤ → ℕ → List MouseEvent → GuacWebClient → GuacWebClient
unfolding event_params
push_all x y buttons [] c = c
push_all x y buttons (e ∷ es) c =
    push_all x y buttons es (push (codes "Input.dispatchMouseEvent") (event_params x y buttons e) c)

unfoldable pub send_mouse : ℤ → ℤ → ℕ → GuacWebClient → GuacWebClient
unfolding push_all mouse_events cdp_buttons
send_mouse x y button_mask c =
    push_all x y (cdp_buttons button_mask) (mouse_events c.prev_button_mask button_mask)
      (record c { prev_button_mask = button_mask })
