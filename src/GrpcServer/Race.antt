-- ===== src/GrpcServer/Race.antt =====
-- `isOnline` takes and gives back the lock of the map, and `post_box[user]` is used without it, so
-- another handler may run in between.
use simple_messenger.Prelude.{ℕ, ◌≡◌, true, false, List, ==_refl}
use simple_messenger.CircularBuffer
use simple_messenger.UserMap.{erase, lookup-assign, lookup-erase}
use simple_messenger.Message.{Envelope}
use simple_messenger.GrpcServer.Defs.{
  GrpcEndpointServer, is_online, disconnect_user, pop_mail, push_mail, cell,
}

module _ (storage : List Envelope) (s : GrpcEndpointServer) (user : ℕ) where
  -- A user who logs out between the test of `streamIncomingMessages` and its `pop` is online again
  -- after the `pop`: `operator[]` has made a new cell. So the stream, whose test then passes, does
  -- not end.
  pub pop_mail_resurrects :
      (is_online (disconnect_user s user) user ≡ false)
      × (is_online (pop_mail storage (disconnect_user s user) user).1 user ≡ true)
  unfolding is_online disconnect_user pop_mail
  pop_mail_resurrects = (
    rw (lookup-erase user user s.post_box, ==_refl user),
    rw (
      lookup-assign user user (CircularBuffer.pop (cell storage (disconnect_user s user) user)).1
          (erase user s.post_box),
      ==_refl user,
    ),
  )

  -- The same between the test of `receiveMessage` and its `push`: the message is answered as
  -- delivered, to a user who is gone.
  pub push_mail_resurrects :
      (env : Envelope)
      → let r = push_mail storage (disconnect_user s user) user env in
        (r.0 ≡ true) × (is_online r.1 user ≡ true)
  unfolding is_online disconnect_user push_mail cell CircularBuffer.push CircularBuffer.make
  push_mail_resurrects env = (
    rw (lookup-erase user user s.post_box, ==_refl user),
    rw (
      lookup-assign user user
          (CircularBuffer.push (cell storage (disconnect_user s user) user) env).1
          (erase user s.post_box),
      ==_refl user,
    ),
  )
