-- ===== src/Processor/Step.antt =====
-- What one tick does to the books: `BookProcessor::process_tick` up to the publication.
use market_data_processor.Prelude.{
  ℕ, ◌+◌, ◌≡◌, inl, inr, refl, ap, ◌∙◌, arith, none, some, List, length, if◌then◌else◌, All,
  Option-cases,
}
use market_data_processor.Prelude.Dict.{
  find, assign, bytes_eq, same_bytes, same_bytes_iff, find-assign, length-assign, All-assign,
  All-find, assign-assign,
}
use market_data_processor.Double.{Double, IsOrdered, IsNumber}
use market_data_processor.Channel.{Channel}
use market_data_processor.Ring.{add_word}
use market_data_processor.Tick.{MarketTick, MarketSnapshot, c_string}
use market_data_processor.Book.{apply, BookDelta}
use market_data_processor.Book.Invariant.{IsBook, new_book-IsBook, apply-IsBook}
use market_data_processor.Processor.{
  BookProcessor, book, books_active, determine_side, open_book, tick_to_delta, update_book,
}

module _ {D : Type 0} ⦃d : Double D⦄ {In Db Sig : Type 0} where
  abbrev pub AllBooks : BookProcessor D In Db Sig → Type 0
  AllBooks s = All (λ e. IsBook e.1) s.books

  pub open_book-IsBook :
      (symbol : List ℕ) (s : BookProcessor D In Db Sig) → AllBooks s → IsBook (open_book symbol s)
  unfolding open_book
  open_book-IsBook symbol s h = elim (Option-cases (find symbol s.books)) [
    | inl e ↦ rw (open_book, e) (new_book-IsBook symbol)
    | inr (b, e) ↦ rw (open_book, e) (All-find (λ b. IsBook b) symbol b s.books e h)
  ]

  module _ (input : Channel (MarketTick D) In) (db : Channel (MarketSnapshot D) Db)
      (sig : Channel (MarketSnapshot D) Sig) where
    -- The delta that a tick becomes: its side depends on the reference prices and on the book.
    abbrev pub delta_of : MarketTick D → BookProcessor D In Db Sig → BookDelta D
    delta_of t s =
        let symbol = c_string t.symbol in
        let s1 = record s { books = assign symbol (open_book symbol s) s.books } in
        tick_to_delta t (determine_side symbol t.price s1).0

    -- A tick whose price is a number keeps every book well formed.
    pub update_book-AllBooks :
        (laws : IsOrdered d) (t : MarketTick D) (s : BookProcessor D In Db Sig)
        → IsNumber t.price
        → AllBooks s
        → AllBooks (update_book input db sig t s)
    unfolding update_book tick_to_delta
    update_book-AllBooks laws t s n h =
        let symbol = c_string t.symbol in
        let b = open_book symbol s in
        let i = open_book-IsBook symbol s h in
        All-assign (λ b. IsBook b) symbol (apply (delta_of t s) b) (assign symbol b s.books)
          (apply-IsBook laws (delta_of t s) b n i) (All-assign (λ b. IsBook b) symbol b s.books i h)

    -- A tick updates the book of its symbol, which is a new one for a symbol that is not known yet,
    -- by one delta, leaves the books of all other symbols alone, counts as one more active book
    -- exactly if its symbol was not known, and counts as processed.
    update_book_lem :
        (t : MarketTick D) (s : BookProcessor D In Db Sig)
        → let symbol = c_string t.symbol in
          let s' = update_book input db sig t s in
          ((key : List ℕ)
            → book key s' ≡ (
                if same_bytes symbol key
                then some (apply (delta_of t s) (open_book symbol s))
                else book key s))
          × (books_active s'
              ≡ (elim (book symbol s) [ none ↦ books_active s + 1 | some _ ↦ books_active s ]))
          × (s'.ticks_processed ≡ add_word s.ticks_processed 1)
    unfolding update_book book books_active tick_to_delta
    update_book_lem t s =
        let symbol = c_string t.symbol in
        let b = open_book symbol s in
        let b' = apply (delta_of t s) b in
        let once = assign-assign symbol b b' s.books in
        (
          λ key. ap (λ m. find key m) once ∙ find-assign key symbol b' s.books,
          ap (λ m. length m) once ∙ length-assign symbol b' s.books,
          refl,
        )

    pub open_book-update_book :
        (t : MarketTick D) (s : BookProcessor D In Db Sig)
        → let symbol = c_string t.symbol in
          open_book symbol (update_book input db sig t s)
          ≡ apply (delta_of t s) (open_book symbol s)
    unfolding open_book book
    open_book-update_book t s =
        let symbol = c_string t.symbol in
        let found = (update_book_lem t s).0 symbol in
        ground (arith, found, same_bytes_iff symbol symbol)
