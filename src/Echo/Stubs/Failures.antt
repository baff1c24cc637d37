-- ===== src/Echo/Stubs/Failures.antt =====
-- Calls of the echo component that fail, through the stubs of examples/echo/weaver_gen.go.
use weaver_kube.Base.{
  ℕ, ◌^◌, ◌<◌, Bool, false, [], ◌∷◌, ◌++◌, Option, none, some, is_none, not, if◌then◌else◌, Bytes,
  codes, bytes_eq, length, Error, joined, ◌≡◌, refl, sym, ap, ◌∙◌, append-nil,
}
use weaver_kube.Echo.{Go, returned, panics, Reply, Echoer}
use weaver_kube.Echo.Stubs.{
  Codec, Answer, Transport, Caller, Attempt, local_echo, client_echo, server_echo, get_stub_fn,
  attempt_with, end_client, end_caught, end_returned, record_call, end_span,
}
use weaver_kube.Echo.Stubs.Remote.{IsCodec}

-- The calls with one more, and the spans with one more if there is one.
abbrev pub Recorded : {S : Type 0} → Caller S → Caller S → Bool → Type 0
Recorded w w' failed =
    (request reply : ℕ) × (w'.calls
      ≡ w.calls ++ record { failed = failed; request_bytes = request; reply_bytes = reply } ∷ [])

abbrev pub IsEnd : {S : Type 0} → Codec → Bool → Caller S → Go Reply → Caller S → Type 0
IsEnd k traced w (returned r) w' =
    Recorded w w' (not (is_none r.error))
    × (w'.spans ≡ (if traced then w.spans ++ r.error ∷ [] else w.spans))
IsEnd k traced w (panics t) w' =
    Recorded w w' false × (w'.spans ≡ w.spans) × (k.catch_panics t ≡ none)

module _ (k : Codec) {S : Type 0} where
  end_returned-IsEnd :
      (traced : Bool) (w : Caller S) (a : Attempt) (e : Option Error)
      → IsEnd k traced w (end_returned k traced w a e).0 (end_returned k traced w a e).1
  unfolding end_returned record_call end_span
  end_returned-IsEnd traced w a e = ((a.request, a.reply, refl), refl)

  end_caught-IsEnd :
      (traced : Bool) (w : Caller S) (a : Attempt) (t : Bytes) (e : Option Error)
      → k.catch_panics t ≡ e
      → IsEnd k traced w (end_caught k traced w a t e).0 (end_caught k traced w a t e).1
  unfolding end_caught record_call
  end_caught-IsEnd traced w a t (some e) same =
      end_returned-IsEnd traced w a (some (joined k.remote_call_error e))
  end_caught-IsEnd traced w a t none same = ((a.request, a.reply, refl), refl, same)

  end_client-IsEnd :
      (traced : Bool) (w : Caller S) (a : Attempt) (o : Go (Option Error))
      → IsEnd k traced w (end_client k traced w a o).0 (end_client k traced w a o).1
  unfolding end_client
  end_client-IsEnd traced w a (returned e) = end_returned-IsEnd traced w a e
  end_client-IsEnd traced w a (panics t) = end_caught-IsEnd traced w a t (k.catch_panics t) refl

  -- Whatever the codec and the transport do, a remote call is recorded exactly once. If it returns,
  -- it is recorded as failed exactly if it returns an error, and the span of the caller, if there is
  -- one, ends with this error. It panics only if `CatchPanics` has no error for the panic, and then
  -- it is recorded as a call that did not fail and ends no span.
  pub client_echo-IsEnd :
      (transport : Transport S) (traced : Bool) (a0 : Bytes) (w : Caller S)
      → IsEnd k traced w
          (client_echo k transport traced a0 w).0
          (client_echo k transport traced a0 w).1
  unfolding client_echo
  client_echo-IsEnd transport traced a0 w =
      let (a, world) = attempt_with k transport w.world (k.encode_string a0) in
      end_client-IsEnd traced (record w { world = world }) a a.outcome

module _ (k : Codec) (carry : Option Error → Option Error) (lawful : IsCodec k carry)
    {S : Type 0} where
  -- If a transport delivers the call to the stub that the server has for the method `Echo`, the
  -- argument has less than 2^32 bytes, and the component panics with a panic for which `CatchPanics`
  -- has an error, then the remote call returns an error joined of the one for remote calls and this
  -- one, where a local call panics, and both leave the component in the same state.
  pub remote_panic :
      (impl : Echoer S) (transport : Transport S) (traced : Bool) (a0 t : Bytes) (e : Error)
      (w : Caller S) (world' : S)
      → ((f : Bytes → S → Go Answer × S)
          → get_stub_fn k impl (codes "Echo") ≡ some f
          → (args : Bytes) (world : S) → transport 0 args world ≡ f args world)
      → length a0 < 2 ^ 32
      → impl a0 w.world ≡ (panics t, world')
      → k.catch_panics t ≡ some e
      → ((client_echo k transport traced a0 w).0
          ≡ returned (record { text = []; error = some (joined k.remote_call_error e) }))
        × ((local_echo traced impl a0 w).0 ≡ panics t)
        × ((client_echo k transport traced a0 w).1.world ≡ world')
        × ((local_echo traced impl a0 w).1.world ≡ world')
  unfolding get_stub_fn bytes_eq local_echo client_echo server_echo
  remote_panic impl transport traced a0 t e w world' delivers short ran caught_as =
      let (args, sent) = lawful.encodes_string a0 short in
      let decoded : k.decode_string args ≡ returned (a0, []) =
        ap k.decode_string (sym (append-nil args))
        ∙ lawful.decode_string-encode_string a0 args [] sent in
      let served : transport 0 args w.world
          ≡ (returned (record { bytes = []; error = some e }), world') =
        delivers (server_echo k impl) refl args w.world ∙ rw (decoded, ran, caught_as) refl in
      (rw (sent, served) refl, rw ran refl, rw (sent, served) refl, rw ran refl)
