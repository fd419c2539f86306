-- ===== src/Tests.antt =====
-- Concrete runs, at windows of one and of three slots. The children apply the theorems to them.
pub mod Links
pub mod Ends
pub mod Clients
pub mod Arenas
pub mod Servers
pub mod Whole
pub mod Building
pub mod Programs
pub mod Threads
pub mod Tokio
pub mod Downstream
pub mod Orders
pub mod Starting
pub mod Heartbeats
pub mod Lives
use longboy.Prelude.{
  ℕ, zero, suc, ◌+◌, ◌*◌, ◌%◌, ◌≤◌, ◌<◌, ◌≡◌, refl, arith, Bool, true, false, Option, none, some,
  List, [], ◌∷◌, ◌++◌, map, foldl, length, get_or, replicate, length-replicate,
}
use longboy.Proto.Constants.{Constants, IsValid, datagram_size, max_cycle, max_buffered}
use longboy.Proto.Cipher.{BlockCipher, Rc5, Cipher}
use longboy.Proto.Sender
use longboy.Proto.Sender.{Source, Sender, poll_datagram}
use longboy.Proto.Receiver
use longboy.Proto.Receiver.{Sink, Receiver, handle_datagram}

abbrev pub single : Constants
single = record { size = 4; window_size = 1 }

abbrev pub triple : Constants
triple = record { size = 2; window_size = 3 }

pub single-IsValid : IsValid single
unfolding datagram_size
single-IsValid = record { size_pos = omega arith; window_pos = omega arith; fits = omega arith }

pub triple-IsValid : IsValid triple
unfolding datagram_size
triple-IsValid = record { size_pos = omega arith; window_pos = omega arith; fits = omega arith }

-- A cipher that reverses four bytes, and eight as two words.
abbrev pub swap4 : List ℕ → List ℕ → List ℕ
swap4 key (a ∷ b ∷ c ∷ d ∷ rest) = d ∷ c ∷ b ∷ a ∷ rest
swap4 key bytes = bytes

abbrev pub swap8 : List ℕ → List ℕ → List ℕ
swap8 key (a ∷ b ∷ c ∷ d ∷ e ∷ f ∷ g ∷ h ∷ rest) = h ∷ g ∷ f ∷ e ∷ d ∷ c ∷ b ∷ a ∷ rest
swap8 key bytes = bytes

pub length-swap4 : (key bs : List ℕ) → length bs ≡ 4 → length (swap4 key bs) ≡ 4
length-swap4 key (a ∷ b ∷ c ∷ d ∷ rest) h = h
length-swap4 key bs h = h

pub swap4-swap4 : (key bs : List ℕ) → length bs ≡ 4 → swap4 key (swap4 key bs) ≡ bs
swap4-swap4 key (a ∷ b ∷ c ∷ d ∷ rest) h = refl
swap4-swap4 key bs h = absurd (omega arith)

pub length-swap8 : (key bs : List ℕ) → length bs ≡ 8 → length (swap8 key bs) ≡ 8
length-swap8 key (a ∷ b ∷ c ∷ d ∷ e ∷ f ∷ g ∷ i ∷ rest) h = h
length-swap8 key bs h = h

pub swap8-swap8 : (key bs : List ℕ) → length bs ≡ 8 → swap8 key (swap8 key bs) ≡ bs
swap8-swap8 key (a ∷ b ∷ c ∷ d ∷ e ∷ f ∷ g ∷ i ∷ rest) h = refl
swap8-swap8 key bs h = absurd (omega arith)

abbrev pub swap : Rc5
swap = record {
  word16 = record {
    encrypt_block = swap4;
    decrypt_block = swap4;
    length-encrypt_block = length-swap4;
    length-decrypt_block = length-swap4;
    decrypt_block-encrypt_block = swap4-swap4;
  };
  word32 = record {
    encrypt_block = swap8;
    decrypt_block = swap8;
    length-encrypt_block = length-swap8;
    length-decrypt_block = length-swap8;
    decrypt_block-encrypt_block = swap8-swap8;
  };
}

-- A source that counts: the number of its next payload goes to every byte.
abbrev pub counter : (size : ℕ) → Source size ℕ
counter size = record {
  poll = λ n slot. (true, replicate size n, n + 1);
  length-poll = λ n slot h. length-replicate size n;
}

-- A sink that keeps what it is handed, newest first.
abbrev pub collect : Sink (List (List ℕ))
collect = record { handle = λ log payload. payload ∷ log }

abbrev pub key : ℕ
key = 7

abbrev pub new_sender : Sender ℕ
new_sender = Sender.new triple key 1

-- The sender behind one poll, and the datagram it sent.
abbrev pub behind : {A B : Type 0} → A × Option B → A
behind (a, o) = a

abbrev pub sent : {A : Type 0} → A × Option (List ℕ) → List ℕ
sent (a, none) = []
sent (a, some datagram) = datagram

abbrev pub first_poll : Sender ℕ × Option (List ℕ)
first_poll = poll_datagram swap triple (counter 2) new_sender 5

abbrev pub second_poll : Sender ℕ × Option (List ℕ)
second_poll = poll_datagram swap triple (counter 2) (behind first_poll) 6

abbrev pub fresh : Receiver (List (List ℕ))
fresh = Receiver.new triple key []

abbrev pub caught_up : Receiver (List (List ℕ))
caught_up = (handle_datagram swap triple collect fresh 10 (sent second_poll)).0
