-- ===== src/Node/Builder/Handles.antt =====
-- The handles of wavelet/src/runtime/node.rs: `Node`, which owns its cell with others, `ExclusiveNode`,
-- the only owner, and `WeakNode`. Each is an `Rc` or a `Weak`, whose counts stand in the cell.
use wavelet_rs.Prelude.{◌+◌, ◌-◌, ◌==◌, Bool, true, false, if◌then◌else◌, Option, none, some}
use wavelet_rs.Node.{NodeInner, is_exclusive}
use wavelet_rs.Node.Builder.{OnDrop, drop_inner}
use wavelet_rs.Platform.{Platform}
use wavelet_rs.Executor.{Reach}

module _ {D : Type 0} where
  -- `Node::clone`.
  unfoldable pub clone : NodeInner D → NodeInner D
  clone n = record n { strong_count = n.strong_count + 1 }

  -- `Node::downgrade`, which borrows the handle.
  unfoldable pub downgrade : NodeInner D → NodeInner D
  downgrade n = record n { weak_count = n.weak_count + 1 }

  -- The drop of a `WeakNode`.
  unfoldable pub release_weak : NodeInner D → NodeInner D
  release_weak n = record n { weak_count = n.weak_count - 1 }

  -- `WeakNode::upgrade`.
  unfoldable pub upgrade_weak : NodeInner D → Option (NodeInner D)
  upgrade_weak n =
      if n.strong_count == 0 then none else some (record n { strong_count = n.strong_count + 1 })

  -- `ExclusiveNode::downgrade`: the only handle becomes a common one.
  unfoldable pub exclusive_downgrade : NodeInner D → NodeInner D
  exclusive_downgrade n = n

  -- A write through `ExclusiveNode::borrow_mut` or `Node::get_mut`.
  unfoldable pub write : NodeInner D → D → NodeInner D
  write n d = record n { data_of = d }

module _ {K : Platform} {D : Type 0} (f : Option (OnDrop K D)) where
  -- The drop of a `Node` or of an `ExclusiveNode`: the last one drops the cell.
  unfoldable pub release : NodeInner D → Reach K → NodeInner D × Reach K
  release n r =
      if n.strong_count == 1
      then (record n { strong_count = 0 }, drop_inner n f r)
      else (record n { strong_count = n.strong_count - 1 }, r)

  -- `Node::upgrade` takes the handle: where it does not become exclusive, it is dropped.
  unfoldable pub upgrade : NodeInner D → Reach K → Bool × (NodeInner D × Reach K)
  unfolding release
  upgrade n r = if is_exclusive n then (true, (n, r)) else (false, release n r)
