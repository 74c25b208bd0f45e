-- ===== src/Network/Transport/Datagram.antt =====
-- From the sender's instruction to the receiver's states, in one datagram.
use rmosh.Prelude.{
  ℕ, ◌+◌, ◌^◌, ◌≤◌, ◌<◌, ◌≡◌, refl, ap, subst, ◌∙◌, inl, inr, true, false, not, Option, none, some,
  List, [], ◌∷◌, Result, ok, ◌>>=◌, arith, length, ltb, get_elem?, option_eq, IsU64, Bool-cases,
  ◌==◌,
}
use rmosh.Crypto.Session.{Cipher, IsAead}
use rmosh.Network.Compressor.{Instruction, Libraries, IsLossless, buffer_size}
use rmosh.Network.Fragment.{Fragment, to_bytes, from_bytes}
use rmosh.Network.Fragment.Wire.{from_bytes-to_bytes}
use rmosh.Network.Fragmenter.{Fragmenter, content_mtu, make_fragments}
use rmosh.Network.Assembly.{
  FragmentAssembly, max_assembly_bytes, restart, keep_or_drop, add_fragment, is_complete, emptied,
  get_assembly, mark_final, supersede,
}
use rmosh.Network.Assembly.Sent.{delivers, content_bytes}
use rmosh.Network.Assembly.Delivery.{deliver, deliver-is_complete}
use rmosh.Network.Reassembly.{
  payload, sent_id, make_fragments-Sent, get_assembly-make_fragments, content_bytes-contents,
}
use rmosh.Network.Connection.State.{Floats, RecvError, Received, into_payload}
use rmosh.Network.Connection.State
use rmosh.Network.Connection.{Connection, System, receive_mtu, send, recv}
use rmosh.Network.Connection.Exchange.{IsValid}
use rmosh.Network.Connection.Delivery.{recv-send}
use rmosh.Network.Sync.{SyncState}
use rmosh.Network.Transport.{
  Transport, apply_instruction, collect_fragment, some_result, after_recv, recv_datagram,
}

keep_or_drop-is_complete :
    (b : FragmentAssembly) (f : Fragment) → (keep_or_drop b f).1 ≡ is_complete (keep_or_drop b f).0
unfolding keep_or_drop restart
keep_or_drop-is_complete b f =
    elim (Bool-cases (ltb max_assembly_bytes (b.bytes_held + length f.contents))) [
      | inl full ↦ rw full refl
      | inr room ↦ rw room refl
    ]

-- What `add_fragment` answers is whether the collection that it leaves is complete.
add_fragment-is_complete :
    (a : FragmentAssembly) (f : Fragment) → (add_fragment a f).1 ≡ is_complete (add_fragment a f).0
unfolding add_fragment
add_fragment-is_complete a f = keep_or_drop-is_complete (mark_final (supersede a f) f) f

delivers_first : (f : Fragment) → f.fragment_num ≡ 0 → (j : ℕ) → j < 1 → delivers j (f ∷ []) ≡ true
delivers_first f first j h = let it : (f.fragment_num == j) ≡ true = ground arith in rw it refl

module _ (lib : Libraries) where
  -- A fragment that is the whole instruction completes a collection that is not at work on it.
  single_fragment :
      IsLossless lib
      → (fr : Fragmenter) (inst : Instruction) (mtu : ℕ) (f : Fragment) (a : FragmentAssembly)
      → (make_fragments lib fr inst mtu).1 ≡ ok (f ∷ [])
      → length (lib.encode_to_vec inst) ≤ buffer_size
      → length (payload lib inst) + content_mtu mtu ≤ max_assembly_bytes
      → option_eq a.current_id (some (sent_id lib fr inst mtu)) ≡ false
      → ((add_fragment a f).1 ≡ true)
        × (get_assembly lib (add_fragment a f).0 ≡ emptied (add_fragment a f).0 (ok inst))
        × (f.fragment_num ≡ 0)
        × (f.id ≡ sent_id lib fr inst mtu)
  unfolding deliver
  single_fragment l fr inst mtu f a made short fits other =
      let (sent, whole, small, pos) = make_fragments-Sent lib fr inst mtu (f ∷ []) made in
      let first : f.fragment_num ≡ 0 = sent.1 in
      let here : get_elem? (f ∷ []) f.fragment_num ≡ some f = rw first refl in
      let room : content_bytes (f ∷ []) + content_mtu mtu ≤ max_assembly_bytes =
        omega (arith, content_bytes-contents (f ∷ []), ap length whole) in
      (
        add_fragment-is_complete a f
            ∙ deliver-is_complete (sent_id lib fr inst mtu) (content_mtu mtu) (f ∷ []) sent small
                room a (f ∷ []) (inl other) (here, tt) pos (delivers_first f first),
        get_assembly-make_fragments lib l fr inst mtu (f ∷ []) made short fits a (f ∷ []) other
            (here, tt) (delivers_first f first),
        first,
        sent.0,
      )

module _ {F My R : Type 0} (remote : SyncState R) (lib : Libraries) where
  collect_fragment_lem :
      (t : Transport F My R) (now : ℕ) (f : Fragment) (inst : Instruction)
      → (add_fragment t.fragments f).1 ≡ true
      → get_assembly lib (add_fragment t.fragments f).0
        ≡ emptied (add_fragment t.fragments f).0 (ok inst)
      → collect_fragment remote lib t now (ok f)
        ≡ apply_instruction remote
            (record t { fragments = (emptied (add_fragment t.fragments f).0 (ok inst)).0 })
            inst
            now
  collect_fragment_lem t now f inst done whole = rw (done, whole) refl

  after_recv_lem :
      (t : Transport F My R) (now : ℕ) (bytes : List ℕ) (f : Fragment)
      (p : Connection F × Option (Result RecvError Received))
      → p.1 ≡ some (ok (State.payload bytes))
      → from_bytes bytes ≡ ok f
      → after_recv remote lib t now p
        ≡ some_result remote lib
            (collect_fragment remote lib (record t { connection = p.0 }) now (ok f))
  unfolding into_payload
  after_recv_lem t now bytes f (c, none) h e = cc
  after_recv_lem t now bytes f (c, some r) h e =
      let same : r ≡ ok (State.payload bytes) = cc in rw (same, e) refl

  -- An instruction that fits one fragment, sent in one datagram: the other end's `recv` is the
  -- application of that instruction to its transport with two changes: the connection is the one
  -- that `Connection::recv` leaves, and the collection of fragments has been emptied again. The two
  -- ends are a client and a server, the sender valid, its sequence number below 2 ^ 63 and not one
  -- that the receiver has passed; cipher, compressor and coding keep their contracts; the fragment's
  -- number for the instruction is of 64 bits; the instruction fits the decompressor's buffer and the
  -- ceiling of the collection, which is not at work on it, and the datagram the receive buffer.
  pub recv_datagram-send :
      (cipher : Cipher) (fl : Floats F)
      → IsAead cipher
      → IsLossless lib
      → (c : Connection F) (t : Transport F My R) (os : System) (fr : Fragmenter)
        (inst : Instruction) (mtu : ℕ) (f : Fragment) (bytes datagram : List ℕ) (from sent now : ℕ)
      → IsValid c.state
      → c.seq < 2 ^ 63
      → t.connection.state.server ≡ not c.state.server
      → t.connection.state.expected_receiver_seq ≤ c.seq
      → (make_fragments lib fr inst mtu).1 ≡ ok (f ∷ [])
      → IsU64 f.id
      → to_bytes f ≡ ok bytes
      → length (lib.encode_to_vec inst) ≤ buffer_size
      → length (payload lib inst) + content_mtu mtu ≤ max_assembly_bytes
      → option_eq t.fragments.current_id (some (sent_id lib fr inst mtu)) ≡ false
      → (send cipher c os bytes sent).1 ≡ ok (some datagram)
      → length datagram ≤ receive_mtu
      → let received = recv cipher fl t.connection (some (datagram, from) ∷ []) now in
        (a : FragmentAssembly) × (a.fragments ≡ [])
        × (a.bytes_held ≡ 0)
        × (a.fragments_total ≡ none)
        × (recv_datagram remote lib cipher fl t (some (datagram, from) ∷ []) now
            ≡ some_result remote lib (
                apply_instruction remote
                  (record t { connection = received.0; fragments = a })
                  inst
                  now))
  unfolding recv_datagram
  recv_datagram-send cipher fl aead l c t os fr inst mtu f bytes datagram from sent now v h other le
        made small rendered short fits fresh went room =
      let received = recv cipher fl t.connection (some (datagram, from) ∷ []) now in
      let arrives =
        (recv-send cipher fl aead c t.connection os bytes datagram from sent now v h other le went
          room).0 in
      let (done, whole, first, _) =
        single_fragment lib l fr inst mtu f t.fragments made short fits fresh in
      let read : from_bytes bytes ≡ ok f =
        subst (λ r. (r >>= from_bytes) ≡ ok f) rendered
          (from_bytes-to_bytes f small (omega arith)) in
      let d : Transport F My R = record t { connection = received.0 } in
      (
        (emptied (add_fragment t.fragments f).0 (ok inst)).0,
        refl,
        refl,
        refl,
        after_recv_lem t now bytes f received arrives read
            ∙ ap (some_result remote lib) (collect_fragment_lem d now f inst done whole),
      )
