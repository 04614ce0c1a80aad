-- ===== src/Rpc/Pending/Laws.antt =====
-- internal/rpc/pending.go: the well-formedness of the entries and their channels.
use agent_util.Common.{
  ℕ, suc, ◌<◌, ◌≡◌, refl, ◌==◌, true, false, Bool-cases, inl, inr, Option, Option-cases, none, some,
  [], ◌∷◌, arith, Map, lookup, insert, delete, ℤ, int_key,
}
use agent_util.Protocol.Message.{Response}
use agent_util.Rpc.Pending.{
  Channel, new_channel, PendingRequests, new_pending_requests, done, update, send, close, register,
  resolve, resolve_found, close_all, cancel_all, len,
}

-- no entry has this channel
abbrev pub Differs : ℕ → Map ℤ ℕ → Type 0
Differs ch [] = Unit
Differs ch ((id, c) ∷ m) = ((c == ch) ≡ false) × Differs ch m

abbrev pub Ready : ℕ → (ℕ → Channel) → Map ℤ ℕ → Type 0
Ready n channels [] = Unit
Ready n channels ((id, ch) ∷ m) =
    (channels ch ≡ new_channel) × (ch < n) × Differs ch m × Ready n channels m

abbrev pub IsReady : PendingRequests → Type 0
IsReady p = Ready p.next_channel p.channels p.pending

Differs-next : (n : ℕ) (channels : ℕ → Channel) (m : Map ℤ ℕ) → Ready n channels m → Differs n m
Differs-next n channels [] r = tt
Differs-next n channels ((id, ch) ∷ m) r = (ground arith, Differs-next n channels m r.3)

pub Ready-update :
    (n ch : ℕ) (c : Channel) (channels : ℕ → Channel) (m : Map ℤ ℕ)
    → Differs ch m
    → Ready n channels m
    → Ready n (update channels ch c) m
unfolding update
Ready-update n ch c channels [] d r = tt
Ready-update n ch c channels ((id, k) ∷ m) d r =
    (ground arith, r.1, r.2, Ready-update n ch c channels m d.1 r.3)

Ready-suc :
    (n : ℕ) (channels : ℕ → Channel) (m : Map ℤ ℕ) → Ready n channels m → Ready (suc n) channels m
Ready-suc n channels [] r = tt
Ready-suc n channels ((id, k) ∷ m) r = (r.0, omega arith, r.2, Ready-suc n channels m r.3)

Differs-insert :
    (c ch : ℕ) (id : ℤ) (m : Map ℤ ℕ) → (ch == c) ≡ false → Differs c m → Differs c (insert id ch m)
unfolding insert
Differs-insert c ch id [] e d = (e, tt)
Differs-insert c ch id ((j, k) ∷ m) e d = elim (Bool-cases (int_key.beq j id)) [
  | inl same ↦ rw same (e, d.1)
  | inr other ↦ rw other (d.0, Differs-insert c ch id m e d.1)
]

Ready-insert :
    (n ch : ℕ) (id : ℤ) (channels : ℕ → Channel) (m : Map ℤ ℕ)
    → channels ch ≡ new_channel
    → ch < n
    → Differs ch m
    → Ready n channels m
    → Ready n channels (insert id ch m)
unfolding insert
Ready-insert n ch id channels [] e h d r = (e, h, tt, tt)
Ready-insert n ch id channels ((j, k) ∷ m) e h d r = elim (Bool-cases (int_key.beq j id)) [
  | inl same ↦ rw same (e, h, d.1, r.3)
  | inr other ↦ rw other (
    r.0,
    r.1,
    Differs-insert k ch id m (ground arith) r.2,
    Ready-insert n ch id channels m e h d.1 r.3,
  )
]

Differs-delete : (c : ℕ) (id : ℤ) (m : Map ℤ ℕ) → Differs c m → Differs c (delete id m)
unfolding delete
Differs-delete c id [] d = tt
Differs-delete c id ((j, k) ∷ m) d = elim (Bool-cases (int_key.beq j id)) [
  | inl same ↦ rw same (Differs-delete c id m d.1)
  | inr other ↦ rw other (d.0, Differs-delete c id m d.1)
]

pub Ready-delete :
    (n : ℕ) (id : ℤ) (channels : ℕ → Channel) (m : Map ℤ ℕ)
    → Ready n channels m
    → Ready n channels (delete id m)
unfolding delete
Ready-delete n id channels [] r = tt
Ready-delete n id channels ((j, k) ∷ m) r = elim (Bool-cases (int_key.beq j id)) [
  | inl same ↦ rw same (Ready-delete n id channels m r.3)
  | inr other ↦ rw other (r.0, r.1, Differs-delete k id m r.2, Ready-delete n id channels m r.3)
]

found-Differs :
    (c ch : ℕ) (id : ℤ) (m : Map ℤ ℕ) → Differs c m → lookup id m ≡ some ch → (ch == c) ≡ false
unfolding lookup
found-Differs c ch id [] d e = cc
found-Differs c ch id ((j, k) ∷ m) d e = ground (arith, found-Differs c ch id m d.1)

-- The channel of an entry is ready, and that of no other entry.
pub found-Ready :
    (n ch : ℕ) (id : ℤ) (channels : ℕ → Channel) (m : Map ℤ ℕ)
    → Ready n channels m
    → lookup id m ≡ some ch
    → (channels ch ≡ new_channel) × (ch < n) × Differs ch (delete id m)
unfolding lookup delete
found-Ready n ch id channels [] r e = cc
found-Ready n ch id channels ((j, k) ∷ m) r e = elim (Bool-cases (int_key.beq j id)) [
  | inl same ↦
      let here : k ≡ ch = ground arith in rw (same, ← here) (r.0, r.1, Differs-delete k id m r.2)
  | inr other ↦
      let there : lookup id m ≡ some ch = ground arith in
      let found = found-Ready n ch id channels m r.3 there in
      let apart = found-Differs k ch id m r.2 there in
      rw other (found.0, found.1, (ground arith, found.2))
]

pub new_pending_requests-IsReady : IsReady new_pending_requests
new_pending_requests-IsReady = tt

pub register-IsReady : (id : ℤ) (p : PendingRequests) → IsReady p → IsReady (register id p).1
unfolding register update
register-IsReady id p r =
    let n = p.next_channel in
    let apart = Differs-next n p.channels p.pending r in
    Ready-insert (suc n) n id (update p.channels n new_channel) p.pending (ground arith)
      (omega arith) apart
      (Ready-suc n _ p.pending (Ready-update n n new_channel p.channels p.pending apart r))

-- A send to the channel of an entry goes through, and the other entries stay ready.
pub resolve-done :
    (id : Option ℤ) (resp : Response) (p : PendingRequests)
    → IsReady p
    → (q : PendingRequests) × (resolve id resp p ≡ done q) × IsReady q
unfolding resolve resolve_found send
resolve-done none resp p r = (p, refl, r)
resolve-done (some id) resp p r = elim (Option-cases (lookup id p.pending)) [
  | inl missing ↦ (p, rw missing, r)
  | inr (ch, e) ↦
      let (fresh, below, apart) = found-Ready p.next_channel ch id p.channels p.pending r e in
      (
        record p {
          pending = delete id p.pending;
          channels = update p.channels ch (record { buffer = some resp; closed = false });
        },
        rw (e, resolve_found, fresh, send),
        Ready-update p.next_channel ch _ p.channels (delete id p.pending) apart
            (Ready-delete p.next_channel id p.channels p.pending r),
      )
]

close_all-done :
    (n : ℕ) (channels : ℕ → Channel) (m : Map ℤ ℕ)
    → Ready n channels m
    → (closed : ℕ → Channel) × (close_all m channels ≡ done closed)
unfolding close_all close
close_all-done n channels [] r = (channels, refl)
close_all-done n channels ((id, ch) ∷ m) r =
    let shut = update channels ch (record { buffer = (channels ch).buffer; closed = true }) in
    let (closed, e) = close_all-done n shut m (Ready-update n ch _ channels m r.2 r.3) in
    (closed, rw (r.0, close_all) (ground (arith, e)))

pub cancel_all-done :
    (p : PendingRequests)
    → IsReady p
    → (q : PendingRequests) × (cancel_all p ≡ done q) × IsReady q × (len q ≡ 0)
unfolding cancel_all len
cancel_all-done p r =
    let (closed, e) = close_all-done p.next_channel p.channels p.pending r in
    (record p { pending = []; channels = closed }, rw (e, cancel_all), tt, refl)
