-- ===== src/EventDriver/Registration.antt =====
-- Registering a source with the I/O driver of wavelet/src/runtime/event_driver/io_driver.rs and
-- taking it back.
use wavelet_rs.Prelude.{
  ℕ, ◌≡◌, refl, sym, ◌∙◌, ap, subst, inl, inr, Bool-cases, none, some, ◌==◌, ==_iff, ==_refl,
  if◌then◌else◌, Returns, returns, Result, ok, err, Result-cases,
}
use wavelet_rs.Mio.{Mio}
use wavelet_rs.Slab.{Slab}
use wavelet_rs.EventDriver.Io.{IoDriver, IoSource, register_source, deregister_source}

module _ (M : Mio) (L : Slab ℕ) where
  -- What a registration that mio accepts does to the table: the token is new, it stands for the
  -- node, and all other tokens are as they were.
  pub record Registers (d : IoDriver M L) (idx : ℕ) (h : IoSource M L) (d' : IoDriver M L)
      : Type 0 where
    pub vacant : L.get d.indices h.token ≡ none
    pub table :
        (k : ℕ) → L.get d'.indices k ≡ (if h.token == k then some idx else L.get d.indices k)

  -- What the deregistration does then: it gives the node back and leaves the table as it was before
  -- the registration, or mio refuses and the table stays.
  pub data Undoes (d : IoDriver M L) (idx : ℕ) (d' : IoDriver M L)
      : Result ℕ M.IoError × IoDriver M L → Type 0 where
    undone :
        (d'' : IoDriver M L)
        → ((k : ℕ) → L.get d''.indices k ≡ L.get d.indices k)
        → Undoes d idx d' (ok idx, d'')
    kept :
        (x : M.IoError) (d'' : IoDriver M L)
        → d''.indices ≡ d'.indices
        → Undoes d idx d' (err x, d'')

  register_source-Registers :
      (d : IoDriver M L) (source : M.Source) (idx : ℕ) (interest : M.Interest) (h : IoSource M L)
      (d' : IoDriver M L)
      → register_source M L d source idx interest ≡ (ok h, d')
      → Registers d idx h d'
  unfolding register_source
  register_source-Registers d source idx interest h d' e =
      let token = L.vacant_key d.indices in
      elim (Result-cases (M.register d.poller source token interest).0) [
        | inr (x, failed) ↦
            let no : (err x, record d { poller = (M.register d.poller source token interest).1 })
                ≡ (ok h, d') =
              rw (register_source, failed) at e in
            cc
        | inl (source', fine) ↦
            let done : (
              ok (record { source = source'; token = token }),
              record d {
                poller = (M.register d.poller source token interest).1;
                indices = L.insert d.indices idx;
              },
            )
                ≡ (ok h, d') =
              rw (register_source, fine) at e in
            let key : token ≡ h.token =
              ap (λ x. elim x.0 [ ok y ↦ y.token | err z ↦ token ]) done in
            let filled : L.insert d.indices idx ≡ d'.indices = ap (λ x. x.1.indices) done in
            record {
              vacant = subst (λ t. L.get d.indices t ≡ none) key (L.get-vacant_key d.indices);
              table = λ k.
                  ap (λ s. L.get s k) (sym filled)
                  ∙ (L.get-insert d.indices idx k
                      ∙ ap (λ t. if t == k then some idx else L.get d.indices k) key);
            }
      ]

  -- A source that has been registered can be deregistered without a panic, whatever mio answers: its
  -- node is given back and every token stands for what it stood for before the registration; or,
  -- where mio refuses, the table is as the registration left it.
  pub deregister_source-Undoes :
      (d : IoDriver M L) (source : M.Source) (idx : ℕ) (interest : M.Interest) (h : IoSource M L)
      (d' : IoDriver M L)
      → register_source M L d source idx interest ≡ (ok h, d')
      → Returns (Undoes d idx d') (deregister_source M L d' h)
  unfolding deregister_source
  deregister_source-Undoes d source idx interest h d' e =
      let r = register_source-Registers d source idx interest h d' e in
      let here : L.get d'.indices h.token ≡ some idx =
        r.table h.token ∙ rw (==_refl h.token) refl in
      elim (Result-cases (M.deregister d'.poller h.source).0) [
        | inr (x, failed) ↦ rw (deregister_source, failed) (returns _ (kept x _ refl))
        | inl (back, fine) ↦
            rw (deregister_source, fine, here)
              (returns _ (
                undone _ λ k. L.get-remove d'.indices h.token k ∙ elim (Bool-cases (h.token == k)) [
                  | inl own ↦
                      rw own (sym r.vacant ∙ ap (L.get d.indices) ((==_iff h.token k).0 own))
                  | inr other ↦ rw other (r.table k ∙ rw other refl)
                ]))
      ]
