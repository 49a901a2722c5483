-- ===== src/Naming/PushReceiver/Closing.antt =====
-- What a second call of `close` comes to.
use nacos_sdk_nodejs.Prelude.{
  ℕ, ◌≡◌, refl, Bool, true, false, not, ◌||◌, Option, none, some, Text, List, [], ◌∷◌, ◌++◌, any,
  All, ◌==◌, arith,
}
use nacos_sdk_nodejs.Naming.HostReactor.{ReactorEnv}
use nacos_sdk_nodejs.Naming.PushReceiver.{
  PushPacket, Socket, running, closing, closed, Input, listening, message, error_event, close_event,
  close_call, Receiver, handle_push_message, handle_packet, create_server, socket_closed, close,
  handle, step, run,
}

-- whether an input is another one than a caller's call of `close`
abbrev pub is_other : ℕ → Input → Bool
is_other c (listening p) = true
is_other c (message b a) = true
is_other c error_event = true
is_other c close_event = true
is_other c (close_call d) = not (d == c)

any-append {ℓ} :
    {A : Type ℓ} (p : A → Bool) (xs ys : List A) → any p (xs ++ ys) ≡ (any p xs || any p ys)
any-append p [] ys = refl
any-append p (x ∷ xs) ys = grind (arith, any-append p xs ys)

module _ (env : ReactorEnv) (read_packet : Text → Option PushPacket) where
  -- no promise of a caller is settled, or will be when the socket has closed
  pub record Unsettled (c : ℕ) (r : Receiver env read_packet) : Type 0 where
    pub not_kept : any (λ d. d == c) r.resolvers ≡ false
    pub not_resolved : any (λ d. d == c) r.resolved ≡ false
    pub not_rejected : any (λ d. d == c) r.rejected ≡ false

  -- closed by `close`, with no socket left in `_server`
  record Gone (r : Receiver env read_packet) : Type 0 where
    is_gone : r.is_closed ≡ true
    no_server : r.server ≡ none

  message-Unsettled :
      (b : Text) (a c : ℕ) (r : Receiver env read_packet)
      → Unsettled c r
      → Unsettled c (handle_push_message env read_packet b a r)
  unfolding handle_push_message handle_packet
  message-Unsettled b a c r u = record {
    not_kept = ground (arith, u.not_kept);
    not_resolved = ground (arith, u.not_resolved);
    not_rejected = ground (arith, u.not_rejected);
  }

  message-Gone :
      (b : Text) (a : ℕ) (r : Receiver env read_packet)
      → Gone r
      → Gone (handle_push_message env read_packet b a r)
  unfolding handle_push_message handle_packet
  message-Gone b a r g = record {
    is_gone = ground (arith, g.is_gone);
    no_server = ground (arith, g.no_server);
  }

  closed-Unsettled :
      (c : ℕ) (r : Receiver env read_packet)
      → Unsettled c r
      → Unsettled c (socket_closed env read_packet r)
  unfolding socket_closed create_server
  closed-Unsettled c r u =
      let e = any-append (λ d. d == c) r.resolvers r.resolved in
      record {
        not_kept = ground arith;
        not_resolved = ground (arith, e, u.not_kept, u.not_resolved);
        not_rejected = ground (arith, u.not_rejected);
      }

  close-Unsettled :
      (c d : ℕ) (r : Receiver env read_packet)
      → (d == c) ≡ false
      → Unsettled c r
      → Unsettled c (close env read_packet d r)
  unfolding close
  close-Unsettled c d r h u = record {
    not_kept = ground (arith, h, u.not_kept);
    not_resolved = ground (arith, u.not_resolved);
    not_rejected = ground (arith, h, u.not_rejected);
  }

  close-Gone : (d : ℕ) (r : Receiver env read_packet) → Gone r → Gone (close env read_packet d r)
  unfolding close
  close-Gone d r g = rw g.no_server (record { is_gone = refl; no_server = refl })

  handle-Unsettled :
      (c : ℕ) (i : Input) (s : Socket) (r : Receiver env read_packet)
      → is_other c i ≡ true
      → Unsettled c r
      → Unsettled c (handle env read_packet i s r)
  handle-Unsettled c (listening p) running r h u = record {
    not_kept = u.not_kept;
    not_resolved = u.not_resolved;
    not_rejected = u.not_rejected;
  }
  handle-Unsettled c (listening p) closing r h u = u
  handle-Unsettled c (listening p) closed r h u = u
  handle-Unsettled c (message b a) running r h u = message-Unsettled b a c r u
  handle-Unsettled c (message b a) closing r h u = u
  handle-Unsettled c (message b a) closed r h u = u
  handle-Unsettled c error_event running r h u = record {
    not_kept = u.not_kept;
    not_resolved = u.not_resolved;
    not_rejected = u.not_rejected;
  }
  handle-Unsettled c error_event closing r h u = u
  handle-Unsettled c error_event closed r h u = u
  handle-Unsettled c close_event running r h u = u
  handle-Unsettled c close_event closing r h u = closed-Unsettled c r u
  handle-Unsettled c close_event closed r h u = u
  handle-Unsettled c (close_call d) s r h u = close-Unsettled c d r (ground (arith, h)) u

  closed-Gone : (r : Receiver env read_packet) → Gone r → Gone (socket_closed env read_packet r)
  unfolding socket_closed
  closed-Gone r g = rw g.is_gone (record { is_gone = refl; no_server = g.no_server })

  handle-Gone :
      (i : Input) (s : Socket) (r : Receiver env read_packet)
      → Gone r
      → Gone (handle env read_packet i s r)
  handle-Gone (listening p) running r g = record { is_gone = g.is_gone; no_server = g.no_server }
  handle-Gone (listening p) closing r g = g
  handle-Gone (listening p) closed r g = g
  handle-Gone (message b a) running r g = message-Gone b a r g
  handle-Gone (message b a) closing r g = g
  handle-Gone (message b a) closed r g = g
  handle-Gone error_event running r g = record { is_gone = g.is_gone; no_server = g.no_server }
  handle-Gone error_event closing r g = g
  handle-Gone error_event closed r g = g
  handle-Gone close_event running r g = g
  handle-Gone close_event closing r g = closed-Gone r g
  handle-Gone close_event closed r g = g
  handle-Gone (close_call d) s r g = close-Gone d r g

  run-Unsettled :
      (c : ℕ) (is : List Input) (r : Receiver env read_packet)
      → All (λ i. is_other c i ≡ true) is
      → Unsettled c r
      → Unsettled c (run env read_packet is r)
  unfolding run step
  run-Unsettled c [] r h u = u
  run-Unsettled c (i ∷ is) r h u =
      run-Unsettled c is (step env read_packet i r) h.1 (handle-Unsettled c i r.socket r h.0 u)

  run-Gone :
      (is : List Input) (r : Receiver env read_packet) → Gone r → Gone (run env read_packet is r)
  unfolding run step
  run-Gone [] r g = g
  run-Gone (i ∷ is) r g = run-Gone is (step env read_packet i r) (handle-Gone i r.socket r g)

  first-Gone :
      (d : ℕ) (r : Receiver env read_packet) {i : ℕ}
      → r.server ≡ some i
      → r.socket ≡ running
      → Gone (close env read_packet d r)
  unfolding close
  first-Gone d r s o = rw (s, o) (record { is_gone = refl; no_server = refl })

  hung-Unsettled :
      (c : ℕ) (r : Receiver env read_packet)
      → Gone r
      → Unsettled c r
      → Unsettled c (close env read_packet c r)
  unfolding close
  hung-Unsettled c r g u = rw g.no_server (record {
    not_kept = u.not_kept;
    not_resolved = u.not_resolved;
    not_rejected = u.not_rejected;
  })

  -- A second call of `close` never ends: where a caller closes a running socket and later another
  -- caller, whose promise is not settled, calls `close` as well, that promise is neither resolved nor
  -- rejected, whatever the events and the calls of others before and after it.
  pub second_close_hangs :
      (d c : ℕ) (between after : List Input) (r : Receiver env read_packet) {i : ℕ}
      → r.server ≡ some i
      → r.socket ≡ running
      → (d == c) ≡ false
      → All (λ j. is_other c j ≡ true) between
      → All (λ j. is_other c j ≡ true) after
      → Unsettled c r
      → Unsettled c (
          run env read_packet after
            (close env read_packet c (run env read_packet between (close env read_packet d r))))
  second_close_hangs d c between after r s o n hb ha u = run-Unsettled c after _ ha (
      hung-Unsettled c _ (run-Gone between _ (first-Gone d r s o))
        (run-Unsettled c between _ hb (close-Unsettled c d r n u)))
