-- ===== src/Node/Wrapping.antt =====
-- The closures of wavelet/src/runtime/node.rs around a user's cycle function.
use wavelet_rs.Prelude.{
  ℕ, ◌≡◌, ◌≢◌, refl, sym, ◌∙◌, ap, false, ◌==◌, if◌then◌else◌, ret, Call, Returns, returns,
  Returns-bind, Returns-value, Bool-cases, inl, inr, ==_iff,
}
use wavelet_rs.Control.{Control, is_broadcast}
use wavelet_rs.Node.{
  NodeInner, Outcome, answered, unwound, set_mut_epoch, after_call, end_call, weak_closure,
}

module _ {D C : Type 0} where
  -- What the graph is told of an outcome, and what the call has left: the data, the other handles and
  -- the context.
  abbrev pub told : Outcome D C → Control
  told (answered k d h c) = k
  told (unwound d h c) = Control.sweep

  abbrev pub left_data : Outcome D C → D
  left_data (answered k d h c) = d
  left_data (unwound d h c) = d

  abbrev pub left_handles : Outcome D C → ℕ
  left_handles (answered k d h c) = h
  left_handles (unwound d h c) = h

  abbrev pub left_context : Outcome D C → C
  left_context (answered k d h c) = c
  left_context (unwound d h c) = c

  -- The cell and the answer after an outcome `o` of the user's function.
  pub record Called (epoch : C → ℕ) (n : NodeInner D) (o : Outcome D C)
      (out : Control × (NodeInner D × C)) : Type 0 where
    pub answer : out.0 ≡ told o
    pub context : out.1.1 ≡ left_context o
    pub new_data : out.1.0.data_of ≡ left_data o
    pub handles : out.1.0.strong_count ≡ left_handles o
    pub stamped :
        out.1.0.mut_epoch ≡ (if is_broadcast (told o) then epoch (left_context o) else n.mut_epoch)
    pub same_handle : (out.1.0.index ≡ n.index) × (out.1.0.depth ≡ n.depth)

  after_call-Called :
      (epoch : C → ℕ) (n : NodeInner D) (o : Outcome D C)
      → Returns (Called epoch n o) (after_call epoch false n o)
  unfolding after_call set_mut_epoch
  after_call-Called epoch n (answered k d h c) = elim (Bool-cases (is_broadcast k)) [
    | inl b ↦ rw b (
        returns _ (record {
          answer = refl;
          context = refl;
          new_data = refl;
          handles = refl;
          stamped = rw b;
          same_handle = (refl, refl);
        }))
    | inr b ↦ rw b (
        returns _ (record {
          answer = refl;
          context = refl;
          new_data = refl;
          handles = refl;
          stamped = rw b;
          same_handle = (refl, refl);
        }))
  ]
  after_call-Called epoch n (unwound d h c) = returns _ (record {
    answer = refl;
    context = refl;
    new_data = refl;
    handles = refl;
    stamped = refl;
    same_handle = (refl, refl);
  })

  -- The end of the call: where no other handle is left, the cell is dropped, behind its last state.
  pub record Wrapped (epoch : C → ℕ) (drop_cell : NodeInner D → C → Call C) (n : NodeInner D)
      (o : Outcome D C) (out : Control × (NodeInner D × C)) : Type 0 where
    pub answer : out.0 ≡ told o
    pub new_data : out.1.0.data_of ≡ left_data o
    pub handles : out.1.0.strong_count ≡ left_handles o
    pub stamped :
        out.1.0.mut_epoch ≡ (if is_broadcast (told o) then epoch (left_context o) else n.mut_epoch)
    pub same_handle : (out.1.0.index ≡ n.index) × (out.1.0.depth ≡ n.depth)
    pub kept : left_handles o ≢ 0 → out.1.1 ≡ left_context o
    pub dropped : left_handles o ≡ 0 → drop_cell out.1.0 (left_context o) ≡ ret out.1.1

  end_call-Wrapped :
      (epoch : C → ℕ) (drop_cell : NodeInner D → C → Call C)
      → ((n : NodeInner D) (c : C) → Returns (λ _. Unit {0}) (drop_cell n c))
      → (n : NodeInner D) (o : Outcome D C) (out : Control × (NodeInner D × C))
      → Called epoch n o out
      → Returns (Wrapped epoch drop_cell n o) (end_call drop_cell out)
  unfolding end_call
  end_call-Wrapped epoch drop_cell safe n o out h = elim (Bool-cases (out.1.0.strong_count == 0)) [
    | inl gone ↦
        let (c', e, _) = Returns-value (safe out.1.0 out.1.1) in
        rw (gone, e)
          (returns _ (record {
            answer = h.answer;
            new_data = h.new_data;
            handles = h.handles;
            stamped = h.stamped;
            same_handle = h.same_handle;
            kept = λ some. absurd (some (sym h.handles ∙ (==_iff _ _).0 gone));
            dropped = λ _. ap (drop_cell out.1.0) (sym h.context) ∙ e;
          }))
    | inr held ↦ rw held (
        returns _ (record {
          answer = h.answer;
          new_data = h.new_data;
          handles = h.handles;
          stamped = h.stamped;
          same_handle = h.same_handle;
          kept = λ _. h.context;
          dropped = λ zero. (let yes = (==_iff _ _).1 (h.handles ∙ zero) in cc);
        }))
  ]

  -- Let the drop of the cell return. Then a closure built without `allow_panic` returns, whether the
  -- user's function answers or unwinds. On a live cell it passes the user's answer on, or asks for a
  -- sweep if the function unwound; it stamps the cell with the epoch just if the answer is a
  -- broadcast; and if the function has dropped all other handles, the cell is dropped behind that. On
  -- a dead cell it asks for a sweep and changes nothing.
  pub weak_closure-Wrapped :
      (epoch : C → ℕ) (f : D → ℕ → C → Outcome D C) (drop_cell : NodeInner D → C → Call C)
      → ((n : NodeInner D) (c : C) → Returns (λ _. Unit {0}) (drop_cell n c))
      → (n : NodeInner D) (c : C)
      → (n.strong_count ≢ 0
          → Returns
              (Wrapped epoch drop_cell n (f n.data_of n.strong_count c))
              (weak_closure epoch false f drop_cell n c))
        × (n.strong_count ≡ 0
            → weak_closure epoch false f drop_cell n c ≡ ret (Control.sweep, (n, c)))
  unfolding weak_closure
  weak_closure-Wrapped epoch f drop_cell safe n c = (
    λ alive. elim (Bool-cases (n.strong_count == 0)) [
      | inl dead ↦ absurd (alive ((==_iff _ _).0 dead))
      | inr live ↦
          let o = f n.data_of n.strong_count c in
          rw live (
            Returns-bind (end_call drop_cell) (after_call-Called epoch n o)
              (λ out h. end_call-Wrapped epoch drop_cell safe n o out h))
    ],
    λ dead. rw ((==_iff n.strong_count 0).1 dead),
  )
