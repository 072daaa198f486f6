-- ===== src/Dialog/Events.antt =====
-- Messages from another thread: the same message box as from the thread of the user interface.
use smartmonitor.Common.{
  ◌≡◌, refl, ap, sym, ◌∙◌, Bool, true, false, List, [], ◌∷◌, ◌++◌, All, arith,
}
use smartmonitor.Dialog.{
  MessageBox, Call, typed_message, message, current_action, PostedEvent, Window, in_ui_thread,
  posted, call, handle, show_text, show_message, show_current_action,
}

-- calls one after another
unfoldable pub calls : Bool → List Call → Window → Window
calls in_ui [] w = w
calls in_ui (c ∷ cs) w = calls in_ui cs (call in_ui c w)

-- the handling of events in their order
unfoldable pub handle_all : List PostedEvent → MessageBox → MessageBox
handle_all [] box = box
handle_all (e ∷ es) box = handle_all es (handle e box)

-- the thread of the user interface handles all that is pending
unfoldable pub handle_pending : Window → MessageBox
unfolding handle_all
handle_pending w = handle_all w.pending w.box

-- whether a call gives a type of message
unfoldable pub has_type : Call → Bool
has_type (typed_message s k) = true
has_type (message s) = false
has_type (current_action a) = true

handle_all-append :
    (es : List PostedEvent) (e : PostedEvent) (box : MessageBox)
    → handle_all (es ++ e ∷ []) box ≡ handle e (handle_all es box)
unfolding handle_all
handle_all-append [] e box = refl
handle_all-append (f ∷ es) e box = handle_all-append es e (handle f box)

handle-posted :
    (c : Call) (box : MessageBox) → has_type c ≡ true → handle (posted c) box ≡ in_ui_thread c box
unfolding handle posted in_ui_thread has_type
handle-posted (typed_message s k) box h = refl
handle-posted (message s) box h = ground arith
handle-posted (current_action a) box h = refl

text-posted :
    (c : Call) (box other : MessageBox) → (handle (posted c) box).text ≡ (in_ui_thread c other).text
unfolding handle posted in_ui_thread show_text show_message show_current_action
text-posted (typed_message s k) box other = refl
text-posted (message s) box other = refl
text-posted (current_action a) box other = refl

-- a further call from another thread is handled last
handle_pending-call :
    (c : Call) (w : Window) → handle_pending (call false c w) ≡ handle (posted c) (handle_pending w)
unfolding handle_pending call
handle_pending-call c w = handle_all-append w.pending (posted c) w.box

-- the calls in the thread of the user interface
unfoldable pub in_ui_all : List Call → MessageBox → MessageBox
in_ui_all [] box = box
in_ui_all (c ∷ cs) box = in_ui_all cs (in_ui_thread c box)

box-calls : (cs : List Call) (w : Window) → (calls true cs w).box ≡ in_ui_all cs w.box
unfolding calls call in_ui_all
box-calls [] w = refl
box-calls (c ∷ cs) w = box-calls cs (call true c w)

handle_pending-calls :
    (cs : List Call) (w : Window)
    → All (λ c. has_type c ≡ true) cs
    → handle_pending (calls false cs w) ≡ in_ui_all cs (handle_pending w)
unfolding calls in_ui_all
handle_pending-calls [] w h = refl
handle_pending-calls (c ∷ cs) w (h, hs) =
    handle_pending-calls cs (call false c w) hs
    ∙ ap (in_ui_all cs) (handle_pending-call c w ∙ handle-posted c (handle_pending w) h)

-- Messages that have a type, and current actions, leave the same message box whether they come from
-- the thread of the user interface or from another one, as soon as what that has posted is handled.
pub calls_lem :
    (cs : List Call) (box : MessageBox)
    → All (λ c. has_type c ≡ true) cs
    → handle_pending (calls false cs (record { box = box; pending = [] }))
      ≡ (calls true cs (record { box = box; pending = [] })).box
unfolding handle_pending handle_all
calls_lem cs box h =
    let w : Window = record { box = box; pending = [] } in
    handle_pending-calls cs w h ∙ sym (box-calls cs w)

-- The text of a message is the same in both ways, also without a type.
pub text-call :
    (c : Call) (box : MessageBox)
    → (handle_pending (call false c (record { box = box; pending = [] }))).text
      ≡ (call true c (record { box = box; pending = [] })).box.text
unfolding handle_pending handle_all call
text-call c box = text-posted c box box
