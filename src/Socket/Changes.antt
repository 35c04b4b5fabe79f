-- ===== src/Socket/Changes.antt =====
-- socket.go: how a socket is made, and how it follows a change of its options.
use multisocket.Prelude.{◌≡◌, refl, ◌∙◌, false, List, [], ◌∷◌}
use multisocket.Prelude.Queue.{make}
use multisocket.Socket.{Values, Socket}

pub data Opt : Type 0 where
  no_recv recv_queue_size no_send send_queue_size send_ttl send_best_effort unrelated : Opt

-- onOptionChange. The case for NoSend is spelled NoRecv a second time, which the first one hides.
unfoldable pub on_option_change : Opt → Socket → Socket
on_option_change no_recv s = record s { no_recv = s.values.no_recv }
on_option_change recv_queue_size s = record s { recvq = make s.values.recv_queue_size }
on_option_change no_send s = s
on_option_change send_queue_size s = record s { sendq = make s.values.send_queue_size }
on_option_change send_ttl s = record s { ttl = s.values.send_ttl }
on_option_change send_best_effort s = record s { best_effort = s.values.send_best_effort }
on_option_change unrelated s = s

-- The fields as Go leaves them before New looks at the options: a nil channel has no room.
abbrev pub blank : Values → Socket
blank v = record {
  values = v;
  closedq_closed = false;
  pipes = [];
  no_recv = false;
  recvq = make 0;
  no_send = false;
  ttl = 0;
  best_effort = false;
  sendq = make 0;
}

abbrev pub changed : List Opt → Socket → Socket
changed [] s = s
changed (o ∷ os) s = changed os (on_option_change o s)

-- New.
unfoldable pub new : Values → Socket
new v =
    changed
      (no_recv ∷ recv_queue_size ∷ no_send ∷ send_queue_size ∷ send_ttl ∷ send_best_effort ∷ [])
      (blank v)

-- A SetOption: the value is written, then the hook runs.
abbrev pub set_option : Opt → Values → Socket → Socket
set_option o v s = on_option_change o (record s { values = v })

abbrev pub set_options : List (Opt × Values) → Socket → Socket
set_options [] s = s
set_options ((o, v) ∷ cs) s = set_options cs (set_option o v s)

on_option_change-no_send : (o : Opt) (s : Socket) → (on_option_change o s).no_send ≡ s.no_send
unfolding on_option_change
on_option_change-no_send no_recv s = refl
on_option_change-no_send recv_queue_size s = refl
on_option_change-no_send no_send s = refl
on_option_change-no_send send_queue_size s = refl
on_option_change-no_send send_ttl s = refl
on_option_change-no_send send_best_effort s = refl
on_option_change-no_send unrelated s = refl

set_options-no_send :
    (cs : List (Opt × Values)) (s : Socket) → (set_options cs s).no_send ≡ s.no_send
set_options-no_send [] s = refl
set_options-no_send ((o, v) ∷ cs) s =
    set_options-no_send cs (set_option o v s) ∙ on_option_change-no_send o (record s { values = v })

-- Whatever the options of a socket say when it is made, and however they change, noSend stays unset.
pub no_send_never_set :
    (v : Values) (cs : List (Opt × Values)) → (set_options cs (new v)).no_send ≡ false
unfolding new on_option_change
no_send_never_set v cs = set_options-no_send cs (new v)
