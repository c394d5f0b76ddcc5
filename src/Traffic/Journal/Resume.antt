-- ===== src/Traffic/Journal/Resume.antt =====
-- Where tailJournal goes on when it starts anew.
use rpi_network_filter.Common.{
  ℕ, ◌-◌, ltb, ◌≡◌, refl, sym, ap, ◌∙◌, ◌⊎◌, inl, inr, true, false, not, ◌&&◌, Bool-cases, Option,
  none, some, List, [], ◌∷◌, ◌++◌, Text, text_eq, text_eq_refl, In, if◌then◌else◌,
}
use rpi_network_filter.Strings.{is_nil}
use rpi_network_filter.Models.{Setting}
use rpi_network_filter.Db.Pairs.{value, put_setting-value}
use rpi_network_filter.Traffic.{TrafficLog}
use rpi_network_filter.Traffic.Journal.{
  JournalEntry, Tail, get_cursor, set_cursor, handle_entry, take_entry, save_cursor, read_lines,
  end_stream,
}

abbrev pub Line : Type 0
Line = Option JournalEntry × ℕ

-- The cursors of the entries among some lines.
abbrev pub cursors : List Line → List Text
cursors [] = []
cursors ((none, now) ∷ ls) = cursors ls
cursors ((some e, now) ∷ ls) = e.cursor ∷ cursors ls

-- The history behind the entries among some lines, each handled once and in order.
abbrev pub handle_all : Text → List Line → TrafficLog → TrafficLog
handle_all name [] s = s
handle_all name ((none, now) ∷ ls) s = handle_all name ls s
handle_all name ((some e, now) ∷ ls) s = handle_all name ls (handle_entry name e s)

get_cursor-set_cursor :
    (key cursor : Text) (rows : List Setting) → get_cursor key (set_cursor key cursor rows) ≡ cursor
unfolding get_cursor set_cursor
get_cursor-set_cursor key cursor rows =
    put_setting-value (record { key = key; value = cursor }) key [] rows ∙ same (text_eq_refl key)
  where
    same : text_eq key key ≡ true → (if text_eq key key then cursor else value rows key []) ≡ cursor
    same e = rw e refl

module _ (name key : Text) where
  -- The saved cursor is the one that was there, or that of an entry that was read.
  abbrev IsSaved : Tail → List Line → Tail → Type 0
  IsSaved t ls t' =
      (get_cursor key t'.kv_store ≡ get_cursor key t.kv_store)
      ⊎ In (get_cursor key t'.kv_store) (cursors ls)

  save_cursor-saved :
      (now : ℕ) (t : Tail)
      → (get_cursor key (save_cursor name key now t).kv_store ≡ get_cursor key t.kv_store)
        ⊎ (get_cursor key (save_cursor name key now t).kv_store ≡ t.last_cursor)
  unfolding save_cursor
  save_cursor-saved now t =
      elim (Bool-cases (ltb 5 (now - t.last_cursor_save) && not (is_nil t.last_cursor))) [
        | inl e ↦ inr (rw e (get_cursor-set_cursor key t.last_cursor t.kv_store))
        | inr e ↦ inl (rw e refl)
      ]

  save_cursor-log : (now : ℕ) (t : Tail) → (save_cursor name key now t).log ≡ t.log
  unfolding save_cursor
  save_cursor-log now t =
      elim (Bool-cases (ltb 5 (now - t.last_cursor_save) && not (is_nil t.last_cursor))) [
        | inl e ↦ rw e refl
        | inr e ↦ rw e refl
      ]

  save_cursor-last : (now : ℕ) (t : Tail) → (save_cursor name key now t).last_cursor ≡ t.last_cursor
  unfolding save_cursor
  save_cursor-last now t =
      elim (Bool-cases (ltb 5 (now - t.last_cursor_save) && not (is_nil t.last_cursor))) [
        | inl e ↦ rw e refl
        | inr e ↦ rw e refl
      ]

  abbrev after : JournalEntry → ℕ → Tail → Tail
  after e now t = save_cursor name key now (take_entry name key e t)

  read_lines-IsSaved : (ls : List Line) (t : Tail) → IsSaved t ls (read_lines name key ls t)
  unfolding read_lines take_entry
  read_lines-IsSaved [] t = inl refl
  read_lines-IsSaved ((none, now) ∷ ls) t = read_lines-IsSaved ls t
  read_lines-IsSaved ((some e, now) ∷ ls) t = elim (read_lines-IsSaved ls (after e now t)) [
    | inr m ↦ inr (inr m)
    | inl same ↦ elim (save_cursor-saved now (take_entry name key e t)) [
      | inl old ↦ inl (same ∙ old)
      | inr new ↦ inr (inl (sym (same ∙ new)))
    ]
  ]

  read_lines-handle_all :
      (ls : List Line) (t : Tail) → (read_lines name key ls t).log ≡ handle_all name ls t.log
  unfolding read_lines take_entry
  read_lines-handle_all [] t = refl
  read_lines-handle_all ((none, now) ∷ ls) t = read_lines-handle_all ls t
  read_lines-handle_all ((some e, now) ∷ ls) t =
      read_lines-handle_all ls (after e now t)
      ∙ ap (handle_all name ls) (save_cursor-log now (take_entry name key e t))

  read_lines-last :
      (ls : List Line) (e : JournalEntry) (now : ℕ) (t : Tail)
      → (read_lines name key (ls ++ (some e, now) ∷ []) t).last_cursor ≡ e.cursor
  unfolding read_lines take_entry
  read_lines-last [] e now t = save_cursor-last now (take_entry name key e t)
  read_lines-last ((none, u) ∷ ls) e now t = read_lines-last ls e now t
  read_lines-last ((some d, u) ∷ ls) e now t = read_lines-last ls e now (after d u t)

  end_stream-cursor :
      (t : Tail)
      → is_nil t.last_cursor ≡ false
      → get_cursor key (end_stream name key t).kv_store ≡ t.last_cursor
  unfolding end_stream
  end_stream-cursor t h = rw h (get_cursor-set_cursor key t.last_cursor t.kv_store)

  -- Whatever lines tailJournal has read so far, each of their entries was handled once and in order,
  -- and the saved cursor is the one that was there or that of an entry that was read; when the
  -- stream ends behind an entry with a cursor, the saved cursor is that of this entry.
  pub read_lines-cursor :
      (ls : List Line) (e : JournalEntry) (now : ℕ) (t : Tail)
      → is_nil e.cursor ≡ false
      → ((read_lines name key ls t).log ≡ handle_all name ls t.log)
        × ((get_cursor key (read_lines name key ls t).kv_store ≡ get_cursor key t.kv_store)
            ⊎ In (get_cursor key (read_lines name key ls t).kv_store) (cursors ls))
        × (get_cursor key
              (end_stream name key (read_lines name key (ls ++ (some e, now) ∷ []) t)).kv_store
            ≡ e.cursor)
  read_lines-cursor ls e now t h =
      let last = read_lines-last ls e now t in
      (
        read_lines-handle_all ls t,
        read_lines-IsSaved ls t,
        end_stream-cursor (read_lines name key (ls ++ (some e, now) ∷ []) t) (ap is_nil last ∙ h)
            ∙ last,
      )
