-- ===== src/Epoll/State.antt =====
-- What a client has of its message between two updates.
use c_async_await.Base.{
  ℕ, ◌+◌, ◌*◌, ◌≤◌, ◌<◌, ◌≡◌, ◌⊎◌, refl, some, List, [], ◌∷◌, ◌++◌, int_max, length, take, arith,
}
use c_async_await.Echo.{ntohl}
use c_async_await.Epoll.{writing, Client}
use c_async_await.Epoll.Bytes.{unread, IsBuffered}
use c_async_await.Str.Text.{IsString}

-- A client between two updates: what it has of the message is in `size` and in the text.
pub record IsReading (c : Client) (text : List ℕ) : Type 0 where
  pub buffered : IsBuffered c
  pub few : c.size_ptr ≤ 4
  pub holds : IsString c.msg text
  pub counted : c.msg_ptr ≡ length text
  pub begins : c.size_ptr < 4 → text ≡ []
  pub within : (n : ℕ) → c.size_ptr ≡ 4 → ntohl c.size ≡ some n → n ≤ int_max → length text ≤ n

-- What it has read of the message.
abbrev pub seen : Client → List ℕ → List ℕ
seen c text = take c.size_ptr c.size ++ text

-- The message goes on, or it is whole, its size is what its first four bytes say, and the client
-- will be written to.
abbrev pub Progress : Client → Client → List ℕ → Type 0
Progress c c' all =
    (text' : List ℕ) × (((c'.mode ≡ c.mode)
        × IsReading c' text'
        × (unread c' ≡ [])
        × (seen c' text' ≡ all))
      ⊎ ((c'.mode ≡ writing)
          × IsString c'.msg text'
          × ((n : ℕ) × (ntohl c'.size ≡ some n) × (n ≤ int_max → length text' ≡ n))
          × (c'.size_ptr ≡ 0)
          × (c'.msg_ptr ≡ 0)
          × IsBuffered c'
          × (c'.size ++ (text' ++ unread c') ≡ all)
          × (c'.bytes_processed ≡ c.bytes_processed + (length text' + 4))))

pub ntohl-some : (size : List ℕ) → length size ≡ 4 → (n : ℕ) × (ntohl size ≡ some n)
unfolding ntohl
ntohl-some [] e = absurd (omega arith)
ntohl-some (a ∷ []) e = absurd (omega arith)
ntohl-some (a ∷ b ∷ []) e = absurd (omega arith)
ntohl-some (a ∷ b ∷ c ∷ []) e = absurd (omega arith)
ntohl-some (a ∷ b ∷ c ∷ d ∷ rest) e = (((a * 256 + b) * 256 + c) * 256 + d, refl)
