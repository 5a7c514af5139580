-- ===== src/Store.antt =====
-- service/fix/nostore.go: the message store of the market data endpoint, which keeps the two
-- sequence numbers and no message. `int` is an integer of any size here.
use bfxfixgw.Base.{◌≡◌, refl, List, arith}
use bfxfixgw.Base.Int.{ℤ, pos, ◌+ℤ◌, ◌-ℤ◌}

pub record NoStore (T : Type 0) : Type 0 where
  pub sender_msg_seq_num : ℤ
  pub target_msg_seq_num : ℤ
  pub creation_time : T

-- The calls that change the store; each of them returns no error. `reset` has the time of the call.
pub data StoreCall (T : Type 0) : Type 0 where
  incr_next_target incr_next_sender refresh : StoreCall T
  set_next_sender set_next_target : ℤ → StoreCall T
  save_message : ℤ → List ℤ → StoreCall T
  reset : T → StoreCall T

-- What a message store promises of the two next sequence numbers.
pub record NextNumbers : Type 0 where
  pub sender : ℤ
  pub target : ℤ

sub_add : (a : ℤ) → a -ℤ pos 1 +ℤ pos 1 ≡ a
unfolding ◌+ℤ◌ ◌-ℤ◌
sub_add a = ground arith

module _ {T : Type 0} where
  unfoldable pub next_sender_msg_seq_num : NoStore T → ℤ
  next_sender_msg_seq_num n = n.sender_msg_seq_num +ℤ pos 1

  unfoldable pub next_target_msg_seq_num : NoStore T → ℤ
  next_target_msg_seq_num n = n.target_msg_seq_num +ℤ pos 1

  unfoldable pub apply : StoreCall T → NoStore T → NoStore T
  apply incr_next_target n = record n { target_msg_seq_num = n.target_msg_seq_num +ℤ pos 1 }
  apply incr_next_sender n = record n { sender_msg_seq_num = n.sender_msg_seq_num +ℤ pos 1 }
  apply refresh n = n
  apply (set_next_sender num) n = record n { sender_msg_seq_num = num -ℤ pos 1 }
  apply (set_next_target num) n = record n { target_msg_seq_num = num -ℤ pos 1 }
  apply (save_message num bytes) n = n
  apply (reset now) n = record {
    sender_msg_seq_num = pos 0;
    target_msg_seq_num = pos 0;
    creation_time = now;
  }

  unfoldable pub view : NoStore T → NextNumbers
  view n = record { sender = next_sender_msg_seq_num n; target = next_target_msg_seq_num n }

  unfoldable pub promised : StoreCall T → NextNumbers → NextNumbers
  promised incr_next_target v = record v { target = v.target +ℤ pos 1 }
  promised incr_next_sender v = record v { sender = v.sender +ℤ pos 1 }
  promised (set_next_sender num) v = record v { sender = num }
  promised (set_next_target num) v = record v { target = num }
  promised (reset now) v = record { sender = pos 1; target = pos 1 }
  promised _ v = v

  -- Every call of the store changes what it shows of the next sequence numbers as a message store
  -- promises: the two numbers that a session reads are those it has set, counted on or reset to 1.
  pub apply-view :
      (call : StoreCall T) (n : NoStore T) → view (apply call n) ≡ promised call (view n)
  unfolding view apply promised next_sender_msg_seq_num next_target_msg_seq_num
  apply-view (reset now) n = unfold ◌+ℤ◌ in refl
  apply-view (set_next_sender num) n = rw sub_add
  apply-view (set_next_target num) n = rw sub_add
  apply-view _ n = refl
