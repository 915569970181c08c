-- ===== src/Client/LoopTests.antt =====
-- A client with a message waiting, whose user types two words and `exit`.
use simple_messenger.Prelude.{
  ◌≡◌, refl, none, some, List, [], ◌∷◌, ◌==◌, Bool-cases, inl, inr, arith, codes, bytes_eq,
  replicate, length-replicate, subst,
}
use simple_messenger.CircularBuffer
use simple_messenger.CircularBuffer.Invariant.{IsValid}
use simple_messenger.UserMap.{lookup, assign}
use simple_messenger.Message.{Envelope, zero_envelope}
use simple_messenger.GrpcServer.Defs.{GrpcEndpointServer, PostBoxCell, push_mail, cell}
use simple_messenger.GrpcServer.Mail
use simple_messenger.GrpcServer.Refine.{IsSound, push_mail_refines}
use simple_messenger.Client.Defs.{GrpcEndpointClient, create_text_envelope}
use simple_messenger.Client.Texts.{arrived, c_string-padded, length-padded}
use simple_messenger.Client.Printed.{IsText, text_of}
use simple_messenger.Client.Loops.{joined, grpc_client_loops, grpc_client_returns}

abbrev storage : List Envelope
storage = replicate 32 zero_envelope

abbrev empty_box : PostBoxCell
empty_box = record { circ_buffer = storage; begin_pos = 0; end_pos = 0; size = 0 }

-- The users 7 and 9 are online, and 9 has written to 7.
abbrev both_online : GrpcEndpointServer
both_online = record { post_box = (7, empty_box) ∷ (9, empty_box) ∷ [] }

abbrev hello : Envelope
hello = arrived 9 7 (codes "hello")

abbrev server : GrpcEndpointServer
server = (push_mail storage both_online 7 hello).1

abbrev client : GrpcEndpointClient
client = record { user_name = codes "adsfadsf"; user_id = 7 }

both_online-IsSound : IsSound both_online
unfolding lookup
both_online-IsSound user b e =
    let valid : IsValid empty_box = omega (arith, length-replicate 32 zero_envelope) in
    elim (Bool-cases (7 == user)) [
      | inl seven ↦
          let same : empty_box ≡ b = ground arith in
          subst (λ (c : PostBoxCell). IsValid c) same valid
      | inr other ↦ elim (Bool-cases (9 == user)) [
        | inl nine ↦
            let same : empty_box ≡ b = ground arith in
            subst (λ (c : PostBoxCell). IsValid c) same valid
        | inr neither ↦ absurd (ground arith)
      ]
    ]

server-IsSound : IsSound server
unfolding lookup
server-IsSound = (push_mail_refines storage both_online 7 hello both_online-IsSound refl).2

hello-IsText : IsText hello
unfolding create_text_envelope
hello-IsText = record {
  text = codes "hello";
  named = record { message_type = tt; data_type = tt };
  sized = length-padded (codes "hello") (omega arith);
  ends = c_string-padded (codes "hello") (omega arith) (omega arith);
}

hello_waits : Mail.mail server 7 ≡ some (hello ∷ [])
unfolding lookup assign push_mail cell CircularBuffer.push CircularBuffer.is_full replicate
hello_waits = refl

nothing_waits : Mail.mail server 9 ≡ some []
unfolding lookup assign push_mail cell create_text_envelope
nothing_waits = refl

grpc_client_returns_example :
    (s : GrpcEndpointServer) × (grpc_client_loops storage client 9
        (codes "hi" ∷ codes "ho" ∷ codes "exit" ∷ codes "more" ∷ [])
        1
        2
        server
      ≡ some (joined (text_of hello ∷ []) s))
    × (Mail.mail s 9 ≡ some (arrived 7 9 (codes "hi") ∷ arrived 7 9 (codes "ho") ∷ []))
    × (Mail.mail s 7 ≡ none)
unfolding bytes_eq
grpc_client_returns_example =
    grpc_client_returns storage client 9 2 (codes "hi" ∷ codes "ho" ∷ []) (codes "more" ∷ []) server
      (hello ∷ []) [] (omega arith) refl server-IsSound hello_waits nothing_waits (hello-IsText, tt)
      (omega arith, omega arith, refl, (omega arith, omega arith, refl, tt)) (omega arith)
