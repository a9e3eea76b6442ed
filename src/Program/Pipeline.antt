-- ===== src/Program/Pipeline.antt =====
-- cmd/frankenstein/main.go: what a query gets through MergeQuerier from the ingesters and the chunk
-- store.
use mathlib.Core.List.{Permᴰ}
use mathlib.Core.List.Permᴰ
use frankenstein.Prelude.{List}
use frankenstein.Prelude.Int.{int_ord}
use frankenstein.Prelude.Order.{nat_ord, text_ord}
use frankenstein.Chunk.Types.{Chunk}
use frankenstein.Chunk.Store.Abstract.Services.{Services}
use frankenstein.Chunk.Store.Abstract.History.{History}
use frankenstein.Distributor.{Distributor}
