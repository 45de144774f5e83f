-- ===== src/Notification/Messages.antt =====
-- The notifications that app/notificationService.js shows.
use docker_baseimage_gui.Prelude.{
  ℕ, true, false, none, some, ◌∷◌, ◌≡◌, refl, ◌⊎◌, inl, inr, arith, Bool-cases, Option-cases,
}
use docker_baseimage_gui.Browser.{may_receive, is_live}
use docker_baseimage_gui.Notification.{
  Permission, is_granted, Data, Note, State, note_of, Event, message_received, step,
}

-- What a notification needs: a message whose two texts are strings, received on an open socket,
-- while the user grants the permission.
pub record Shows (e : Event) (s : State) (note : Note) : Type 0 where
  pub socket : ℕ
  pub content : Data
  pub permission : Permission
  pub received : e ≡ message_received socket (some content) permission
  pub opened : may_receive (s.ready socket) ≡ true
  pub texts : note_of content ≡ some note
  pub granted : is_granted permission ≡ true

-- An event leaves the notifications alone, or it shows one: then it is a message with two texts, on
-- a socket that may receive, while the permission is granted.
pub step-shown :
    (e : Event) (s : State)
    → ((step e s).shown ≡ s.shown)
      ⊎ ((note : Note) × Shows e s note × ((step e s).shown ≡ note ∷ s.shown))
unfolding step
step-shown (message_received i (some d) p) s = elim (Bool-cases (may_receive (s.ready i))) [
  | inr no_message ↦ inl (ground arith)
  | inl arrives ↦ elim (Option-cases (note_of d)) [
    | inl no_texts ↦ inl (ground arith)
    | inr (note, texts) ↦ elim (Bool-cases (is_granted p)) [
      | inr revoked ↦ inl (ground arith)
      | inl allowed ↦ inr (
        note,
        record {
          socket = i;
          content = d;
          permission = p;
          received = refl;
          opened = arrives;
          texts = texts;
          granted = allowed;
        },
        ground arith,
      )
    ]
  ]
]
step-shown (message_received i none p) s = inl (ground arith)
step-shown _ s = inl (ground arith)

-- A well-formed message that arrives on the held socket after the permission was taken away ends the
-- connection, and shows nothing.
pub message-revoked :
    (s : State) (i : ℕ) (d : Data) (note : Note) (p : Permission)
    → may_receive (s.ready i) ≡ true
    → s.web_socket ≡ some i
    → note_of d ≡ some note
    → is_granted p ≡ false
    → let t = step (message_received i (some d) p) s in
      (t.web_socket ≡ none)
      × (is_live (t.ready i) ≡ false)
      × (t.notification_granted ≡ false)
      × (t.shown ≡ s.shown)
unfolding step
message-revoked s i d note p is_open held texts revoked = ground arith
