-- ===== src/SasCode.antt =====
-- The short authentication string of SDNSDK/Crypto/Verification/Transactions/SAS/MXSASTransaction.m
-- as three numbers and as seven emojis. The string is read as bytes; `none` is a read past its end
-- or past the end of the table.
pub mod Numbers
pub mod Emojis
mod Tests
use Prim.Native.Nat.{bit_and, bit_or}
use sendingnetwork_ios.Common.{ℕ, ◌+◌, String, Option, none, some, List, [], ◌∷◌, get_elem?}
use sendingnetwork_ios.Common.Bits.{shift_left, shift_right}

-- decimalRepresentationForSas:
unfoldable pub decimal_representation_for_sas : List ℕ → Option (List ℕ)
decimal_representation_for_sas (b0 ∷ b1 ∷ b2 ∷ b3 ∷ b4 ∷ _) = some (
    (bit_or (shift_left b0 5) (shift_right b1 3) + 1000)
    ∷ (bit_or (bit_or (shift_left (bit_and b1 0x7) 10) (shift_left b2 2)) (shift_right b3 6) + 1000)
    ∷ (bit_or (shift_left (bit_and b3 0x3f) 7) (shift_right b4 1) + 1000)
    ∷ [])
decimal_representation_for_sas _ = none

-- MXEmojiRepresentation
pub record EmojiRepresentation : Type 0 where
  pub emoji : String
  pub name : String

unfoldable pub sas_emojis : List EmojiRepresentation
sas_emojis =
    record { emoji = "🐶"; name = "dog" }
    ∷ record { emoji = "🐱"; name = "cat" }
    ∷ record { emoji = "🦁"; name = "lion" }
    ∷ record { emoji = "🐎"; name = "horse" }
    ∷ record { emoji = "🦄"; name = "unicorn" }
    ∷ record { emoji = "🐷"; name = "pig" }
    ∷ record { emoji = "🐘"; name = "elephant" }
    ∷ record { emoji = "🐰"; name = "rabbit" }
    ∷ record { emoji = "🐼"; name = "panda" }
    ∷ record { emoji = "🐓"; name = "rooster" }
    ∷ record { emoji = "🐧"; name = "penguin" }
    ∷ record { emoji = "🐢"; name = "turtle" }
    ∷ record { emoji = "🐟"; name = "fish" }
    ∷ record { emoji = "🐙"; name = "octopus" }
    ∷ record { emoji = "🦋"; name = "butterfly" }
    ∷ record { emoji = "🌷"; name = "flower" }
    ∷ record { emoji = "🌳"; name = "tree" }
    ∷ record { emoji = "🌵"; name = "cactus" }
    ∷ record { emoji = "🍄"; name = "mushroom" }
    ∷ record { emoji = "🌏"; name = "globe" }
    ∷ record { emoji = "🌙"; name = "moon" }
    ∷ record { emoji = "☁\u{fe0f}"; name = "cloud" }
    ∷ record { emoji = "🔥"; name = "fire" }
    ∷ record { emoji = "🍌"; name = "banana" }
    ∷ record { emoji = "🍎"; name = "apple" }
    ∷ record { emoji = "🍓"; name = "strawberry" }
    ∷ record { emoji = "🌽"; name = "corn" }
    ∷ record { emoji = "🍕"; name = "pizza" }
    ∷ record { emoji = "🎂"; name = "cake" }
    ∷ record { emoji = "❤\u{fe0f}"; name = "heart" }
    ∷ record { emoji = "🙂"; name = "smiley" }
    ∷ record { emoji = "🤖"; name = "robot" }
    ∷ record { emoji = "🎩"; name = "hat" }
    ∷ record { emoji = "👓"; name = "glasses" }
    ∷ record { emoji = "🔧"; name = "spanner" }
    ∷ record { emoji = "🎅"; name = "santa" }
    ∷ record { emoji = "👍"; name = "thumbs up" }
    ∷ record { emoji = "☂\u{fe0f}"; name = "umbrella" }
    ∷ record { emoji = "⌛"; name = "hourglass" }
    ∷ record { emoji = "⏰"; name = "clock" }
    ∷ record { emoji = "🎁"; name = "gift" }
    ∷ record { emoji = "💡"; name = "light bulb" }
    ∷ record { emoji = "📕"; name = "book" }
    ∷ record { emoji = "✏\u{fe0f}"; name = "pencil" }
    ∷ record { emoji = "📎"; name = "paperclip" }
    ∷ record { emoji = "✂\u{fe0f}"; name = "scissors" }
    ∷ record { emoji = "🔒"; name = "lock" }
    ∷ record { emoji = "🔑"; name = "key" }
    ∷ record { emoji = "🔨"; name = "hammer" }
    ∷ record { emoji = "☎\u{fe0f}"; name = "telephone" }
    ∷ record { emoji = "🏁"; name = "flag" }
    ∷ record { emoji = "🚂"; name = "train" }
    ∷ record { emoji = "🚲"; name = "bicycle" }
    ∷ record { emoji = "✈\u{fe0f}"; name = "aeroplane" }
    ∷ record { emoji = "🚀"; name = "rocket" }
    ∷ record { emoji = "🏆"; name = "trophy" }
    ∷ record { emoji = "⚽"; name = "ball" }
    ∷ record { emoji = "🎸"; name = "guitar" }
    ∷ record { emoji = "🎺"; name = "trumpet" }
    ∷ record { emoji = "🔔"; name = "bell" }
    ∷ record { emoji = "⚓\u{fe0f}"; name = "anchor" }
    ∷ record { emoji = "🎧"; name = "headphones" }
    ∷ record { emoji = "📁"; name = "folder" }
    ∷ record { emoji = "📌"; name = "pin" }
    ∷ []

-- The places of the emojis in the table.
unfoldable pub emoji_indices : List ℕ → Option (List ℕ)
emoji_indices (b0 ∷ b1 ∷ b2 ∷ b3 ∷ b4 ∷ b5 ∷ _) = some (
    shift_right b0 2
    ∷ bit_or (shift_left (bit_and b0 0x3) 4) (shift_right b1 4)
    ∷ bit_or (shift_left (bit_and b1 0xf) 2) (shift_right b2 6)
    ∷ bit_and b2 0x3f
    ∷ shift_right b3 2
    ∷ bit_or (shift_left (bit_and b3 0x3) 4) (shift_right b4 4)
    ∷ bit_or (shift_left (bit_and b4 0xf) 2) (shift_right b5 6)
    ∷ [])
emoji_indices _ = none

emojis_at : List ℕ → Option (List EmojiRepresentation)
emojis_at [] = some []
emojis_at (i ∷ is) = elim (get_elem? sas_emojis i) [
  | none ↦ none
  | some e ↦ elim (emojis_at is) [ none ↦ none | some es ↦ some (e ∷ es) ]
]

abbrev emojis_for : Option (List ℕ) → Option (List EmojiRepresentation)
emojis_for none = none
emojis_for (some indices) = emojis_at indices

-- emojiRepresentationForSas:
unfoldable pub emoji_representation_for_sas : List ℕ → Option (List EmojiRepresentation)
unfolding emoji_indices emojis_at
emoji_representation_for_sas sas = emojis_for (emoji_indices sas)
