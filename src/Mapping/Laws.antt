-- ===== src/Mapping/Laws.antt =====
-- Previews in the list of conversations (`buildMessagePreview` of
-- src/webhook-worker/message-mapping.ts).
use whatsapp_inbox.Shared.{
  ℕ, zero, suc, ◌≤◌, ◌≡◌, refl, ap, inl, inr, Option, none, some, [], ◌∷◌, ◌++◌, arith, ltb,
  Bool-cases, get_or, length, take, Text, utf16,
}
use whatsapp_inbox.Schema.{MessageType}
use whatsapp_inbox.Mapping.{
  preview_max_chars, MappedInboundMessage, truncate, preview_of, build_message_preview, reacted,
  truthy, labelled, type_text,
}

length-take : (n : ℕ) (s : Text) → length (take n s) ≤ n
length-take zero s = omega arith
length-take (suc n) [] = omega arith
length-take (suc n) (c ∷ s) = omega (arith, length-take n s)

length-snoc : (s : Text) (c : ℕ) → length (s ++ c ∷ []) ≡ suc (length s)
length-snoc [] c = refl
length-snoc (d ∷ s) c = ap suc (length-snoc s c)

pub length-truncate : (s : Text) → length (truncate s) ≤ preview_max_chars
unfolding truncate
length-truncate s = elim (Bool-cases (ltb preview_max_chars (length s))) [
  | inl e ↦ rw e (rw (length-snoc (take 119 s) 8230) (omega (arith, length-take 119 s)))
  | inr e ↦ rw e (ground arith)
]

length-reacted : (o : Option Text) → length (reacted o) ≤ preview_max_chars
unfolding reacted
length-reacted none = omega arith
length-reacted (some s) = length-truncate (utf16 "Reaccionó " ++ s)

length-preview_of :
    (t : MessageType) (m : MappedInboundMessage) → length (preview_of t m) ≤ preview_max_chars
unfolding preview_of
length-preview_of MessageType.image m = length-truncate (labelled "📷 " "📷 Imagen" (truthy m.body))
length-preview_of MessageType.video m = length-truncate (labelled "🎥 " "🎥 Video" (truthy m.body))
length-preview_of MessageType.audio m = omega arith
length-preview_of MessageType.sticker m = omega arith
length-preview_of MessageType.document m =
    length-truncate (labelled "📄 " "📄 Documento" (truthy m.media_filename))
length-preview_of MessageType.location m = omega arith
length-preview_of MessageType.contacts m = omega arith
length-preview_of MessageType.reaction m = length-reacted (truthy m.body)
length-preview_of MessageType.unsupported m = omega arith
length-preview_of t m = length-truncate (get_or m.body (utf16 (type_text t)))

-- Whatever a message says, its preview has at most 120 code units.
pub length-build_message_preview :
    (m : MappedInboundMessage) → length (build_message_preview m) ≤ preview_max_chars
unfolding build_message_preview
length-build_message_preview m = length-preview_of m.type_ m
