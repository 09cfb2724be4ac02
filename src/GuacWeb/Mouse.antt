-- ===== src/GuacWeb/Mouse.antt =====
-- What a browser makes of the events of `send_mouse` of src/guac_web.cpp.
use tunnel_proxy.Base.{
  ℕ, ◌+◌, ◌≡◌, refl, sym, ap, ◌∙◌, Bool, true, false, not, ◌&&◌, List, [], ◌∷◌, ◌++◌, map,
  append-nil, append_assoc, if◌then◌else◌, codes, Bytes, to_string, ℤ,
}
use tunnel_proxy.GuacWeb.{InputEvent, GuacWebClient}
use tunnel_proxy.GuacWeb.Input.{
  wheel_up, wheel_down, moved, newly_pressed, newly_released, push, int_to_string, has, Button,
  left, middle, right, guac_bit, cdp_bit, cdp_buttons, MouseEvent, pressed, released, event_params,
  mouse_events, push_all, send_mouse, only_if,
}

-- What an event does to a button that is held or not.
abbrev pub after : MouseEvent → Button → Bool → Bool
after (pressed left) left v = true
after (pressed middle) middle v = true
after (pressed right) right v = true
after (released left) left v = false
after (released middle) middle v = false
after (released right) right v = false
after _ b v = v

abbrev pub after_all : List MouseEvent → Button → Bool → Bool
after_all [] b v = v
after_all (e ∷ es) b v = after_all es b (after e b v)

after_all-append :
    (es fs : List MouseEvent) (b : Button) (v : Bool)
    → after_all (es ++ fs) b v ≡ after_all fs b (after_all es b v)
after_all-append [] fs b v = refl
after_all-append (e ∷ es) fs b v = after_all-append es fs b (after e b v)

after-only_if :
    (c : Bool) (e : MouseEvent) (b : Button) (v : Bool)
    → after_all (only_if c e) b v ≡ (if c then after e b v else v)
after-only_if true e b v = refl
after-only_if false e b v = refl

same_if : (c v : Bool) → (if c then v else v) ≡ v
same_if true v = refl
same_if false v = refl

settled : (p m : Bool) → (if not m && p then false else if m && not p then true else p) ≡ m
settled true true = refl
settled true false = refl
settled false true = refl
settled false false = refl

mouse_events-after :
    (prev mask : ℕ) (b : Button)
    → after_all (mouse_events prev mask) b (has prev (guac_bit b)) ≡ has mask (guac_bit b)
unfolding mouse_events
mouse_events-after prev mask left =
    simp (after_all-append, after-only_if, same_if) (settled (has prev 1) (has mask 1))
mouse_events-after prev mask middle =
    simp (after_all-append, after-only_if, same_if) (settled (has prev 2) (has mask 2))
mouse_events-after prev mask right =
    simp (after_all-append, after-only_if, same_if) (settled (has prev 4) (has mask 4))

buttons-bit :
    (l m r : Bool)
    → let n = (if l then 1 else 0) + (if m then 4 else 0) + (if r then 2 else 0) in
      (has n 1 ≡ l) × (has n 4 ≡ m) × (has n 2 ≡ r)
buttons-bit true true true = (refl, refl, refl)
buttons-bit true true false = (refl, refl, refl)
buttons-bit true false true = (refl, refl, refl)
buttons-bit true false false = (refl, refl, refl)
buttons-bit false true true = (refl, refl, refl)
buttons-bit false true false = (refl, refl, refl)
buttons-bit false false true = (refl, refl, refl)
buttons-bit false false false = (refl, refl, refl)

cdp_buttons-bit :
    (mask : ℕ) (b : Button) → has (cdp_buttons mask) (cdp_bit b) ≡ has mask (guac_bit b)
unfolding cdp_buttons
cdp_buttons-bit mask left = (buttons-bit (has mask 1) (has mask 2) (has mask 4)).0
cdp_buttons-bit mask middle = (buttons-bit (has mask 1) (has mask 2) (has mask 4)).1
cdp_buttons-bit mask right = (buttons-bit (has mask 1) (has mask 2) (has mask 4)).2

-- A JSON object, by its members.
abbrev quoted : Bytes → Bytes
quoted text = b'"' ∷ (text ++ (b'"' ∷ []))

abbrev members : List (Bytes × Bytes) → Bytes
members [] = []
members ((key, value) ∷ []) = quoted key ++ (b':' ∷ value)
members ((key, value) ∷ m ∷ ms) = quoted key ++ (b':' ∷ (value ++ (b',' ∷ members (m ∷ ms))))

abbrev pub json_object : List (Bytes × Bytes) → Bytes
json_object ms = b'{' ∷ (members ms ++ (b'}' ∷ []))

abbrev name_of : Button → Bytes
name_of left = codes "left"
name_of middle = codes "middle"
name_of right = codes "right"

abbrev at : Bytes → ℤ → ℤ → List (Bytes × Bytes) → List (Bytes × Bytes)
at type x y more =
    (codes "type", quoted type) ∷ (codes "x", int_to_string x) ∷ (codes "y", int_to_string y) ∷ more

abbrev click : Bytes → List (Bytes × Bytes)
click buttons = (codes "buttons", buttons) ∷ (codes "clickCount", codes "1") ∷ []

-- The members of an event, where the buttons are held that `buttons` has.
abbrev pub fields : ℤ → ℤ → ℕ → MouseEvent → List (Bytes × Bytes)
fields x y buttons wheel_up =
    at (codes "mouseWheel") x y ((codes "deltaX", codes "0") ∷ (codes "deltaY", codes "-120") ∷ [])
fields x y buttons wheel_down =
    at (codes "mouseWheel") x y ((codes "deltaX", codes "0") ∷ (codes "deltaY", codes "120") ∷ [])
fields x y buttons moved =
    at (codes "mouseMoved") x y
      ((codes "button", quoted (codes "none")) ∷ (codes "buttons", to_string buttons) ∷ [])
fields x y buttons (pressed b) =
    at (codes "mousePressed") x y ((codes "button", quoted (name_of b)) ∷ click (to_string buttons))
fields x y buttons (released b) =
    at (codes "mouseReleased") x y
      ((codes "button", quoted (name_of b)) ∷ click (to_string buttons))

event_params-fields :
    (x y : ℤ) (buttons : ℕ) (e : MouseEvent)
    → event_params x y buttons e ≡ json_object (fields x y buttons e)
unfolding event_params
event_params-fields x y buttons wheel_up = simp append_assoc refl
event_params-fields x y buttons wheel_down = simp append_assoc refl
event_params-fields x y buttons moved = simp append_assoc refl
event_params-fields x y buttons (pressed left) = simp append_assoc refl
event_params-fields x y buttons (pressed middle) = simp append_assoc refl
event_params-fields x y buttons (pressed right) = simp append_assoc refl
event_params-fields x y buttons (released left) = simp append_assoc refl
event_params-fields x y buttons (released middle) = simp append_assoc refl
event_params-fields x y buttons (released right) = simp append_assoc refl

-- The turns of the wheel among the events.
abbrev pub wheels : List MouseEvent → List MouseEvent
wheels [] = []
wheels (wheel_up ∷ es) = wheel_up ∷ wheels es
wheels (wheel_down ∷ es) = wheel_down ∷ wheels es
wheels (moved ∷ es) = wheels es
wheels (pressed b ∷ es) = wheels es
wheels (released b ∷ es) = wheels es

abbrev pub turns : (up down : Bool) → List MouseEvent
turns true true = wheel_up ∷ wheel_down ∷ []
turns true false = wheel_up ∷ []
turns false true = wheel_down ∷ []
turns false false = []

abbrev pub mouse_input : ℤ → ℤ → ℕ → MouseEvent → InputEvent
mouse_input x y buttons e = record {
  method = codes "Input.dispatchMouseEvent";
  params = json_object (fields x y buttons e);
}

wheels-append : (es fs : List MouseEvent) → wheels (es ++ fs) ≡ wheels es ++ wheels fs
wheels-append [] fs = refl
wheels-append (wheel_up ∷ es) fs = ap (λ l. wheel_up ∷ l) (wheels-append es fs)
wheels-append (wheel_down ∷ es) fs = ap (λ l. wheel_down ∷ l) (wheels-append es fs)
wheels-append (moved ∷ es) fs = wheels-append es fs
wheels-append (pressed b ∷ es) fs = wheels-append es fs
wheels-append (released b ∷ es) fs = wheels-append es fs

wheels-pressed : (c : Bool) (b : Button) → wheels (only_if c (pressed b)) ≡ []
wheels-pressed true b = refl
wheels-pressed false b = refl

wheels-released : (c : Bool) (b : Button) → wheels (only_if c (released b)) ≡ []
wheels-released true b = refl
wheels-released false b = refl

turned :
    (up down : Bool)
    → wheels (only_if up wheel_up) ++ wheels (only_if down wheel_down) ≡ turns up down
turned true true = refl
turned true false = refl
turned false true = refl
turned false false = refl

mouse_events-wheels :
    (prev mask : ℕ) → wheels (mouse_events prev mask) ≡ turns (has mask 8) (has mask 16)
unfolding mouse_events
mouse_events-wheels prev mask =
    simp (wheels-append, wheels-pressed, wheels-released, append-nil)
      (turned (has mask 8) (has mask 16))

mouse_events-moved :
    (prev mask : ℕ) → (front : List MouseEvent) × (mouse_events prev mask ≡ front ++ (moved ∷ []))
unfolding mouse_events
mouse_events-moved prev mask = (
  only_if (has mask 8) wheel_up
      ++ only_if (has mask 16) wheel_down
      ++ only_if (newly_pressed prev mask left) (pressed left)
      ++ only_if (newly_pressed prev mask middle) (pressed middle)
      ++ only_if (newly_pressed prev mask right) (pressed right)
      ++ only_if (newly_released prev mask left) (released left)
      ++ only_if (newly_released prev mask middle) (released middle)
      ++ only_if (newly_released prev mask right) (released right),
  simp append_assoc refl,
)

push_all-queue :
    (x y : ℤ) (buttons : ℕ) (es : List MouseEvent) (c : GuacWebClient)
    → push_all x y buttons es c
      ≡ record c { input_queue = c.input_queue ++ map (mouse_input x y buttons) es }
unfolding push_all
push_all-queue x y buttons [] c =
    ap (λ q. record c { input_queue = q }) (sym (append-nil c.input_queue))
push_all-queue x y buttons (e ∷ es) c =
    ap (λ p. push_all x y buttons es (push (codes "Input.dispatchMouseEvent") p c))
      (event_params-fields x y buttons e)
    ∙ push_all-queue x y buttons es
        (record c { input_queue = c.input_queue ++ (mouse_input x y buttons e ∷ []) })
    ∙ ap (λ q. record c { input_queue = q })
        (append_assoc c.input_queue (mouse_input x y buttons e ∷ [])
          (map (mouse_input x y buttons) es))

-- What became of the client `c` in `t`.
abbrev pub Moused : ℤ → ℤ → ℕ → GuacWebClient → GuacWebClient → Type 0
Moused x y mask c t =
    (es : List MouseEvent) × (buttons : ℕ) × (front : List MouseEvent) × (t ≡ record c {
      prev_button_mask = mask;
      input_queue = c.input_queue ++ map (mouse_input x y buttons) es;
    })
    × ((b : Button) → after_all es b (has c.prev_button_mask (guac_bit b)) ≡ has mask (guac_bit b))
    × ((b : Button) → has buttons (cdp_bit b) ≡ has mask (guac_bit b))
    × (wheels es ≡ turns (has mask 8) (has mask 16))
    × (es ≡ front ++ (moved ∷ []))

-- `send_mouse` puts events behind those that wait, which take each of the three buttons from where the
-- last mask had it to where the new one has it. Each is a JSON object with its type and place;
-- one that presses, releases or moves also has the name of its button and the buttons of the new
-- mask in the bits of CDP. There is a turn of the wheel for each of the bits 3 and 4 of the mask,
-- the last event is a move, and the new mask is kept.
pub send_mouse-after :
    (x y : ℤ) (mask : ℕ) (c : GuacWebClient) → Moused x y mask c (send_mouse x y mask c)
unfolding send_mouse
send_mouse-after x y mask c = (
  mouse_events c.prev_button_mask mask,
  cdp_buttons mask,
  (mouse_events-moved c.prev_button_mask mask).0,
  push_all-queue x y (cdp_buttons mask) (mouse_events c.prev_button_mask mask)
      (record c { prev_button_mask = mask }),
  mouse_events-after c.prev_button_mask mask,
  cdp_buttons-bit mask,
  mouse_events-wheels c.prev_button_mask mask,
  (mouse_events-moved c.prev_button_mask mask).1,
)
